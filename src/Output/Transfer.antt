-- ===== src/Output/Transfer.antt =====
-- What one process sends is what is received from it.
use ska_mpi.Prelude.{
  ℕ, zero, suc, ◌+◌, ◌-◌, ◌*◌, ◌≤◌, ◌<◌, ◌≡◌, refl, sym, ap, subst, ◌∙◌, true, false, Option, some,
  List, [], ◌∷◌, ◌++◌, ltb, leb, ◌==◌, if◌then◌else◌, arith, if_elim, length, take, drop,
  length-append, length-take, length-drop, take-append-drop, dec_lt,
}
use ska_mpi.Align.Least.{mul_le}
use ska_mpi.Arith.{imin2}
use ska_mpi.Output.{Text, Received, before, send_from, send_output, receive, c_string}

module _ (n : ℕ) (positive : 0 < n) where
  -- The messages from index `i` on arrive as the text from `i` on.
  record Arrives (i size index : ℕ) (buffer : Text) (messages : Option (List Text)) : Type 0 where
    sent : List Text
    got : Received
    sends : messages ≡ some sent
    receives : receive n i size sent ≡ some got
    bytes : got.bytes ≡ drop i buffer
    complete : got.pending ≡ []
    counted : got.recv_index ≡ index + 1
    fits : got.recv_index ≤ got.recv_size
    blocks : (b : ℕ) × (got.recv_size ≡ n * b)

  receive-full :
      (i size : ℕ) (m : Text) (ms : List Text) {r : Received}
      → length m ≡ n
      → i + n ≤ size
      → receive n (i + n) (if leb size (i + n) then size + n else size) ms ≡ some r
      → receive n i size (m ∷ ms) ≡ some (before m r)
  unfolding receive before
  receive-full i size m ms e f h =
      let t : ltb size (i + n) ≡ false = ground arith in
      let u : (n == n) ≡ true = ground arith in rw (e, t, u, h) refl

  receive-last :
      (i size : ℕ) (m : Text) (ms : List Text)
      → length m < n
      → i + n ≤ size
      → receive n i size (m ∷ ms)
        ≡ some (record { bytes = m; recv_index = i + length m; recv_size = size; pending = ms })
  unfolding receive
  receive-last i size m ms e f =
      let t : ltb size (i + n) ≡ false = ground arith in
      let u : (length m == n) ≡ false = ground arith in rw (t, u) refl

  take_all : (k : ℕ) (xs : Text) → length xs ≤ k → take k xs ≡ xs
  take_all zero [] h = refl
  take_all zero (x ∷ xs) h = absurd (omega arith)
  take_all (suc k) [] h = refl
  take_all (suc k) (x ∷ xs) h = ap (λ l. x ∷ l) (take_all k xs (omega arith))

  drop_nil : (k : ℕ) → drop {A = ℕ} k [] ≡ []
  drop_nil zero = refl
  drop_nil (suc k) = refl

  drop-drop : (i k : ℕ) (xs : Text) → drop k (drop i xs) ≡ drop (i + k) xs
  drop-drop zero k xs = ap (λ j. drop j xs) (omega arith)
  drop-drop (suc i) zero [] = sym (drop_nil (suc i + 0))
  drop-drop (suc i) (suc k) [] = sym (drop_nil (suc i + suc k))
  drop-drop (suc i) k (x ∷ xs) =
      let e : suc i + k ≡ suc (i + k) = omega arith in
      drop-drop i k xs ∙ ap (λ j. drop j (x ∷ xs)) (sym e)

  -- After the last character nothing is sent, but an empty message if the last one was full.
  sends_end :
      (fuel i j index : ℕ) (buffer : Text)
      → 0 < fuel
      → index < i
      → send_from fuel n i j index buffer ≡ (if j == n then some ([] ∷ []) else some [])
  unfolding send_from
  sends_end zero i j index buffer p h = absurd (omega arith)
  sends_end (suc fuel) i j index buffer p h =
      let t : leb i index ≡ false = ground arith in rw t refl

  sends_on :
      (fuel i j k index : ℕ) (buffer : Text) {ms : List Text}
      → i ≤ index
      → imin2 (index + 1 - i) n ≡ k
      → send_from fuel n (i + n) k index buffer ≡ some ms
      → send_from (suc fuel) n i j index buffer ≡ some (take k (drop i buffer) ∷ ms)
  unfolding send_from
  sends_on fuel i j k index buffer {ms} h m e =
      let t : leb i index ≡ true = ground arith in
      subst
        (λ (k : ℕ).
          send_from fuel n (i + n) k index buffer ≡ some ms
          → send_from (suc fuel) n i j index buffer ≡ some (take k (drop i buffer) ∷ ms))
        m (λ e. rw (t, e) refl) e

  imin2_left : (a b : ℕ) → a ≤ b → imin2 a b ≡ a
  unfolding imin2
  imin2_left a b h = ground arith

  imin2_right : (a b : ℕ) → b ≤ a → imin2 a b ≡ b
  unfolding imin2
  imin2_right a b h = ground arith

  -- A last message that is not full.
  last_short :
      (fuel i j index b size : ℕ) (buffer : Text)
      → length buffer ≡ index + 1
      → i ≤ index
      → 0 < fuel
      → i + n ≤ size
      → size ≡ n * b
      → index + 1 - i < n
      → Arrives i size index buffer (send_from (suc fuel) n i j index buffer)
  last_short fuel i j index b size buffer l h f room eb t =
      let k = index + 1 - i in
      let all : take k (drop i buffer) ≡ drop i buffer =
        take_all k (drop i buffer) (omega (arith, length-drop i buffer)) in
      let len : length (take k (drop i buffer)) ≡ k =
        omega (arith, length-take k (drop i buffer), length-drop i buffer) in
      let end : (k == n) ≡ false = ground arith in
      record {
        sent = take k (drop i buffer) ∷ [];
        got = record {
          bytes = take k (drop i buffer);
          recv_index = i + length (take k (drop i buffer));
          recv_size = size;
          pending = [];
        };
        sends =
            sends_on fuel i j k index buffer h (imin2_left k n (omega arith))
              (sends_end fuel (i + n) k index buffer f (omega arith) ∙ rw end refl);
        receives = receive-last i size (take k (drop i buffer)) [] (omega arith) room;
        bytes = all;
        complete = refl;
        counted = omega arith;
        fits = omega arith;
        blocks = (b, eb);
      }

  -- A full message, before what is sent and received next.
  next_full :
      (fuel i j index size : ℕ) (buffer : Text)
      → length buffer ≡ index + 1
      → i + n ≤ index + 1
      → i + n ≤ size
      → Arrives
          (i + n)
          (if leb size (i + n) then size + n else size)
          index
          buffer
          (send_from fuel n (i + n) n index buffer)
      → Arrives i size index buffer (send_from (suc fuel) n i j index buffer)
  unfolding before
  next_full fuel i j index size buffer l h room r =
      let m = take n (drop i buffer) in
      let len : length m ≡ n = omega (arith, length-take n (drop i buffer), length-drop i buffer) in
      record {
        sent = m ∷ r.sent;
        got = before m r.got;
        sends =
            sends_on fuel i j n index buffer (omega arith) (imin2_right _ n (omega arith)) r.sends;
        receives = receive-full i size m r.sent len room r.receives;
        bytes =
            ap (λ l. m ++ l) (r.bytes ∙ sym (drop-drop i n buffer))
            ∙ take-append-drop n (drop i buffer);
        complete = r.complete;
        counted = r.counted;
        fits = r.fits;
        blocks = r.blocks;
      }

  -- The empty message behind a last one that was full.
  last_empty :
      (fuel i index b size : ℕ) (buffer : Text)
      → length buffer ≡ index + 1
      → i ≡ index + 1
      → 0 < fuel
      → i + n ≤ size
      → size ≡ n * b
      → Arrives i size index buffer (send_from fuel n i n index buffer)
  last_empty fuel i index b size buffer l h f room eb =
      let same : (n == n) ≡ true = ground arith in
      record {
        sent = [] ∷ [];
        got = record { bytes = []; recv_index = i + 0; recv_size = size; pending = [] };
        sends = sends_end fuel i n index buffer f (omega arith) ∙ rw same refl;
        receives = receive-last i size [] [] positive room;
        bytes = sym (drop_all i buffer (omega arith));
        complete = refl;
        counted = omega arith;
        fits = omega arith;
        blocks = (b, eb);
      }
    where
      drop_all : (k : ℕ) (xs : Text) → length xs ≤ k → drop k xs ≡ []
      drop_all k [] h = drop_nil k
      drop_all zero (x ∷ xs) h = absurd (omega arith)
      drop_all (suc k) (x ∷ xs) h = drop_all k xs (omega arith)

  -- The size after a full message is again a multiple of `n`, with room for the next one.
  next_size :
      (i a b size : ℕ)
      → i ≡ n * a
      → size ≡ n * b
      → a < b
      → let size' = if leb size (i + n) then size + n else size in
        (b' : ℕ) × ((size' ≡ n * b') × (suc a < b'))
  next_size i a b size ea eb ab =
      if_elim (λ s. (b' : ℕ) × ((s ≡ n * b') × (suc a < b'))) (leb size (i + n))
        (λ t. (b + 1, (omega arith, omega arith)))
        (λ t. (
          b,
          (
            eb,
            elim (dec_lt (suc a) b) [
              | yes u ↦ u
              | no u ↦ let e : b ≡ a + 1 = omega arith in absurd (ground (arith, ap (λ x. n * x) e))
            ],
          ),
        ))

  all_arrive :
      (fuel i j index a b size : ℕ) (buffer : Text)
      → length buffer ≡ index + 1
      → i ≤ index
      → index + 2 ≤ fuel + i
      → i ≡ n * a
      → size ≡ n * b
      → a < b
      → Arrives i size index buffer (send_from fuel n i j index buffer)
  all_arrive zero i j index a b size buffer l h f ea eb ab = absurd (omega arith)
  all_arrive (suc fuel) i j index a b size buffer l h f ea eb ab =
      let room : i + n ≤ size = omega (arith, mul_le n (a + 1) b (omega arith)) in
      let (b', (eb', ab')) = next_size i a b size ea eb ab in
      let room' : i + n + n ≤ (if leb size (i + n) then size + n else size) =
        omega (arith, eb', mul_le n (a + 2) b' (omega arith)) in
      elim (dec_lt (index + 1 - i) n) [
        | yes t ↦ last_short fuel i j index b size buffer l h (omega arith) room eb t
        | no t ↦
            next_full fuel i j index size buffer l (omega arith) room
              (elim (dec_lt (i + n) (index + 1)) [
                | yes u ↦
                    all_arrive fuel (i + n) n index (suc a) b' _ buffer l (omega arith)
                      (omega arith) (omega arith) eb' ab'
                | no u ↦
                    last_empty fuel (i + n) index b' _ buffer l (omega arith) (omega arith) room'
                      eb'
              ])
      ]

-- A text that holds no 0.
abbrev pub HasNoNul : Text → Type 0
HasNoNul [] = Unit
HasNoNul (c ∷ cs) = ((c == 0) ≡ false) × HasNoNul cs

pub c_string-append : (s t : Text) → HasNoNul s → c_string (s ++ 0 ∷ t) ≡ s
unfolding c_string
c_string-append [] t h = refl
c_string-append (c ∷ s) t h = rw (h.0, c_string-append s t h.1) refl

-- What is to hold of the transfer of `text` into a buffer of `size` characters.
pub record IsTransferred (n size : ℕ) (text : Text) : Type 0 where
  pub messages : List Text
  pub received : Received
  pub sent : send_output n text ≡ some messages
  pub taken : receive n 0 size messages ≡ some received
  pub bytes : received.bytes ≡ text ++ 0 ∷ []
  pub nothing_left : received.pending ≡ []
  pub printed : c_string received.bytes ≡ text
  pub in_bounds : received.recv_index ≤ received.recv_size
  pub blocks : (b : ℕ) × (received.recv_size ≡ n * b)

-- For a text without a 0 and a receive buffer of one or more blocks of `initial_buffer_size`, whatever
-- the length of the text: the messages that `flush_output` sends are all received, no receive goes
-- beyond the buffer, which is again of whole blocks, none is waited for in vain, and the text that is
-- printed is the one that was sent.
pub send_output-receive :
    (n b : ℕ) (text : Text) → 0 < n → 0 < b → HasNoNul text → IsTransferred n (n * b) text
unfolding send_output
send_output-receive n b text h k nul =
    let len : length (text ++ 0 ∷ []) ≡ length text + 1 = length-append text (0 ∷ []) in
    let r =
      all_arrive n h (length text + 2) 0 0 (length text) 0 b (n * b) (text ++ 0 ∷ []) len
        (omega arith) (omega arith) (omega arith) refl k in
    record {
      messages = r.sent;
      received = r.got;
      sent = r.sends;
      taken = r.receives;
      bytes = r.bytes;
      nothing_left = r.complete;
      printed = ap c_string r.bytes ∙ c_string-append text [] nul;
      in_bounds = r.fits;
      blocks = r.blocks;
    }
