-- ===== src/Measurement/Execute/Prepared.antt =====
-- The preparation of a measurement keeps the buffer ready and asks for a repetition.
use ska_mpi.Prelude.{
  ◌<◌, ◌≡◌, refl, sym, subst, ap, Bool, ◌&&◌, List, [], ◌∷◌, Option, none, some, if◌then◌else◌,
  if_elim, arith,
}
use ska_mpi.Buffer.{set_send_buffer_usage, set_recv_buffer_usage}
use ska_mpi.Buffer.Slice.{set_send_buffer_slice_usage, set_recv_buffer_slice_usage}
use ska_mpi.Buffer.Placement.{IsReady}
use ska_mpi.Measurement.Execute.{
  Event, total_started, Process, Request, send_buffer_usage, recv_buffer_usage,
  send_buffer_slice_usage, recv_buffer_slice_usage, reported_message_size, synchronization,
  Measured, Setting, say, init_synchronization, request, requests, forget_usages, prepare, warn,
}
use ska_mpi.Measurement.Execute.Calls.{AllPlaced, calls_in}

module _ (c : Setting) (t : Measured) where
  -- The measurement is prepared.
  pub record IsPrepared (es : List Event) (p : Process) : Type 0 where
    pub ready : IsReady p.buffer
    pub placed : AllPlaced es → AllPlaced p.events
    pub counted : calls_in p.events ≡ calls_in es
    pub more : 0 < p.batch.max_counter

  request-IsPrepared :
      (r : Request) (es : List Event) (p : Process)
      → IsPrepared es p
      → IsPrepared es (request c r p)
  unfolding request init_synchronization
  request-IsPrepared (send_buffer_usage n) es p v = record {
    ready = ground (arith, v.ready);
    placed = v.placed;
    counted = v.counted;
    more = v.more;
  }
  request-IsPrepared (recv_buffer_usage n) es p v = record {
    ready = ground (arith, v.ready);
    placed = v.placed;
    counted = v.counted;
    more = v.more;
  }
  request-IsPrepared (send_buffer_slice_usage n) es p v = record {
    ready = ground (arith, v.ready);
    placed = v.placed;
    counted = v.counted;
    more = v.more;
  }
  request-IsPrepared (recv_buffer_slice_usage n) es p v = record {
    ready = ground (arith, v.ready);
    placed = v.placed;
    counted = v.counted;
    more = v.more;
  }
  request-IsPrepared (reported_message_size n) es p v = record {
    ready = ground (arith, v.ready);
    placed = v.placed;
    counted = v.counted;
    more = v.more;
  }
  request-IsPrepared synchronization es p v = record {
    ready = v.ready;
    placed = v.placed;
    counted = v.counted;
    more = omega arith;
  }

  requests-IsPrepared :
      (rs : List Request) (es : List Event) (p : Process)
      → IsPrepared es p
      → IsPrepared es (requests c rs p)
  unfolding requests
  requests-IsPrepared [] es p v = v
  requests-IsPrepared (r ∷ rs) es p v =
      requests-IsPrepared rs es (request c r p) (request-IsPrepared r es p v)

  forget_usages-IsPrepared :
      (es : List Event) (p : Process)
      → 0 < c.min_repetitions
      → IsReady p.buffer
      → p.events ≡ es
      → IsPrepared es (forget_usages c p)
  unfolding forget_usages set_send_buffer_usage set_recv_buffer_usage set_send_buffer_slice_usage
      set_recv_buffer_slice_usage
  forget_usages-IsPrepared es p h v e = record {
    ready = ground (arith, v);
    placed = subst AllPlaced (sym e);
    counted = ap calls_in e;
    more = h;
  }

  prepare-IsPrepared :
      (es : List Event) (p : Process)
      → IsPrepared es (forget_usages c p)
      → IsPrepared es (prepare c t p)
  unfolding prepare
  prepare-IsPrepared es p v = go t.init_fp
    where
      go :
          (o : Option (List Request))
          → IsPrepared es
              (elim o [ none ↦ forget_usages c p | some rs ↦ requests c rs (forget_usages c p) ])
      go none = v
      go (some rs) = requests-IsPrepared rs es (forget_usages c p) v

  pub warn-IsPrepared :
      (b : Bool) (es : List Event) (p : Process) → IsPrepared es p → IsPrepared es (warn c t b p)
  unfolding warn
  warn-IsPrepared b es p v =
      if_elim (IsPrepared es) (c.lrootproc && p.just_entered_measurement_block && b)
        (λ _. record { ready = v.ready; placed = v.placed; counted = v.counted; more = v.more })
        (λ _. record { ready = v.ready; placed = v.placed; counted = v.counted; more = v.more })

  pub warn-buffer : (b : Bool) (p : Process) → (warn c t b p).buffer ≡ p.buffer
  unfolding warn
  warn-buffer b p =
      if_elim (λ (q : Process). q.buffer ≡ p.buffer)
        (c.lrootproc && p.just_entered_measurement_block && b) (λ _. refl) (λ _. refl)

  pub started-IsPrepared :
      (p : Process)
      → 0 < c.min_repetitions
      → IsReady p.buffer
      → IsPrepared p.events (prepare c t (if c.lrootproc then say total_started p else p))
  started-IsPrepared p h v =
      if_elim (λ q. IsPrepared p.events (prepare c t q)) c.lrootproc
        (λ _.
          let q = say total_started p in
          let w = prepare-IsPrepared q.events q (forget_usages-IsPrepared q.events q h v refl) in
          record { ready = w.ready; placed = w.placed; counted = w.counted; more = w.more })
        (λ _. prepare-IsPrepared p.events p (forget_usages-IsPrepared p.events p h v refl))
