-- ===== src/Autorefine.antt =====
-- src/autorefine.c. `Results` is the list of measured values, `Candidates` the values of new
-- candidates, `Queue` the priority queue of the candidates for further measurements, `Start` the first ones.
pub mod Results
pub mod Candidates
pub mod Queue
pub mod Start
pub mod Refine
mod Tests
