-- ===== src/Session/Writing.antt =====
-- The send queue of a session is first in, first out.
use mathlib.Core.List.{append_assoc, append-nil}
use mathlib.Core.Option.{some-injective}
use peerpaste.Base.{
  Bool-cases, Bytes, ◌≡◌, refl, sym, ap, ◌∙◌, subst, inl, inr, Bool, true, false, not, ◌&&◌, some,
  List, [], ◌∷◌, ◌++◌, arith,
}
use peerpaste.Session.{
  ErrorCode, Writer, is_empty, queue_message, packet_send_done, success, operation_aborted,
  other_error,
}

abbrev pub is_success : ErrorCode → Bool
is_success success = true
is_success _ = false

-- What happens to a session that was made with an empty queue: the messages queued so far, and
-- whether each write so far succeeded. An `async_write` completes only while one is pending.
pub data Reach : List Bytes → Bool → Writer → Type 0 where
  start :
      {w : Writer}
      → w.send_packet_queue ≡ []
      → w.in_flight ≡ false
      → w.written ≡ []
      → Reach [] true w
  queued :
      {ms : List Bytes} {fine : Bool} {w : Writer} (m : Bytes)
      → Reach ms fine w
      → Reach (ms ++ m ∷ []) fine (queue_message w m)
  completed :
      {ms : List Bytes} {fine : Bool} {w u : Writer} (e : ErrorCode)
      → Reach ms fine w
      → w.in_flight ≡ true
      → packet_send_done w e ≡ some u
      → Reach ms (fine && is_success e) u

pub record IsOrdered (ms : List Bytes) (fine : Bool) (w : Writer) : Type 0 where
  pub in_order : w.written ++ w.send_packet_queue ≡ ms
  pub busy : w.in_flight ≡ true → is_empty w.send_packet_queue ≡ false
  pub live : fine ≡ true → w.in_flight ≡ not (is_empty w.send_packet_queue)

is_empty-append : (ps : List Bytes) (m : Bytes) → is_empty (ps ++ m ∷ []) ≡ false
is_empty-append [] m = refl
is_empty-append (p ∷ ps) m = refl

queue_message-IsOrdered :
    (ms : List Bytes) (fine : Bool) (w : Writer) (m : Bytes)
    → IsOrdered ms fine w
    → IsOrdered (ms ++ m ∷ []) fine (queue_message w m)
unfolding queue_message
queue_message-IsOrdered ms fine w m h = elim (Bool-cases (is_empty w.send_packet_queue)) [
  | inl e ↦
      rw (e, queue_message)
        (record {
          in_order = order;
          busy = λ _. is_empty-append _ m;
          live = λ _. rw (is_empty-append w.send_packet_queue m);
        })
  | inr e ↦
      rw (e, queue_message)
        (record {
          in_order = order;
          busy = λ _. is_empty-append _ m;
          live = λ k. h.live k ∙ rw (is_empty-append w.send_packet_queue m, e);
        })
]
  where
    order : w.written ++ (w.send_packet_queue ++ m ∷ []) ≡ ms ++ m ∷ []
    order = sym (append_assoc w.written _ _) ∙ ap (λ l. l ++ m ∷ []) h.in_order

packet_send_done-IsOrdered :
    (ms : List Bytes) (fine : Bool) (w u : Writer) (e : ErrorCode)
    → packet_send_done w e ≡ some u
    → IsOrdered ms fine w
    → IsOrdered ms (fine && is_success e) u
unfolding packet_send_done
packet_send_done-IsOrdered ms fine w u success e h = done w.send_packet_queue refl
  where
    done : (l : List Bytes) → w.send_packet_queue ≡ l → IsOrdered ms (fine && true) u
    done [] q = absurd (ground arith)
    done (p ∷ ps) q =
        let s : u ≡ record w {
          send_packet_queue = ps;
          in_flight = not (is_empty ps);
          written = w.written ++ p ∷ [];
        } =
          ground arith in
        subst (IsOrdered ms (fine && true)) (sym s) (record {
          in_order = append_assoc w.written (p ∷ []) ps ∙ ap (◌++◌ w.written) (sym q) ∙ h.in_order;
          busy = λ b. ground arith;
          live = λ _. refl;
        })
packet_send_done-IsOrdered ms fine w u operation_aborted e h =
    subst (IsOrdered ms (fine && false)) (some-injective _ _ e)
      (record { in_order = h.in_order; busy = λ b. cc; live = λ k. ground arith })
packet_send_done-IsOrdered ms fine w u other_error e h =
    subst (IsOrdered ms (fine && false)) (some-injective _ _ e)
      (record { in_order = h.in_order; busy = λ b. cc; live = λ k. ground arith })

-- In each history of a session: what was written, followed by what is queued, is what was handed
-- over, in that order; a write is pending only while a packet is queued, so `pop_front` is defined;
-- and as long as no write failed, one is pending whenever a packet is queued.
pub Reach-IsOrdered :
    {ms : List Bytes} {fine : Bool} {w : Writer} → Reach ms fine w → IsOrdered ms fine w
Reach-IsOrdered (start {w = w} q f e) = record {
  in_order = rw (e, q);
  busy = λ b. ground arith;
  live = λ _. rw (q, f);
}
Reach-IsOrdered (queued {ms = ms} {fine = fine} {w = w} m r) =
    queue_message-IsOrdered ms fine w m (Reach-IsOrdered r)
Reach-IsOrdered (completed {ms = ms} {fine = fine} {w = w} {u = u} e r f d) =
    packet_send_done-IsOrdered ms fine w u e d (Reach-IsOrdered r)

unfoldable pub queue_all : Writer → List Bytes → Writer
queue_all w [] = w
queue_all w (m ∷ ms) = queue_all (queue_message w m) ms

queue_message_stuck :
    (v : Writer) (m : Bytes)
    → is_empty v.send_packet_queue ≡ false
    → queue_message v m ≡ record v { send_packet_queue = v.send_packet_queue ++ m ∷ [] }
unfolding queue_message
queue_message_stuck v m h = rw (h, queue_message)

-- The messages only join the queue of `v`.
abbrev Stuck : Writer → List Bytes → Writer → Type 0
Stuck v ms u =
    ((queue_all u ms).send_packet_queue ≡ v.send_packet_queue ++ ms)
    × ((queue_all u ms).in_flight ≡ v.in_flight)
    × ((queue_all u ms).written ≡ v.written)

stuck : (ms : List Bytes) (v : Writer) → is_empty v.send_packet_queue ≡ false → Stuck v ms v
unfolding queue_all
stuck [] v h = (sym (append-nil v.send_packet_queue), refl, refl)
stuck (m ∷ ms) v h =
    let u : Writer = record v { send_packet_queue = v.send_packet_queue ++ m ∷ [] } in
    let (queue, idle, written) = stuck ms u (is_empty-append v.send_packet_queue m) in
    (
      ap (λ x. (queue_all x ms).send_packet_queue) (queue_message_stuck v m h)
          ∙ queue
          ∙ append_assoc v.send_packet_queue (m ∷ []) ms,
      ap (λ x. (queue_all x ms).in_flight) (queue_message_stuck v m h) ∙ idle,
      ap (λ x. (queue_all x ms).written) (queue_message_stuck v m h) ∙ written,
    )

-- After a write that failed or was aborted, the messages that are queued from then on only join the
-- queue, behind the packet that failed, which stays at its front: no write is pending, and nothing more
-- is ever written.
pub queue_all_stuck :
    (w u : Writer) (ec : ErrorCode) (ms : List Bytes)
    → is_empty w.send_packet_queue ≡ false
    → is_success ec ≡ false
    → packet_send_done w ec ≡ some u
    → ((queue_all u ms).send_packet_queue ≡ w.send_packet_queue ++ ms)
      × ((queue_all u ms).in_flight ≡ false)
      × ((queue_all u ms).written ≡ w.written)
unfolding packet_send_done
queue_all_stuck w u success ms h f e = ground (arith, f)
queue_all_stuck w u operation_aborted ms h f e =
    subst
      (λ v.
        ((queue_all v ms).send_packet_queue ≡ w.send_packet_queue ++ ms)
        × ((queue_all v ms).in_flight ≡ false)
        × ((queue_all v ms).written ≡ w.written))
      (some-injective _ _ e) (stuck ms (record w { in_flight = false }) h)
queue_all_stuck w u other_error ms h f e =
    subst
      (λ v.
        ((queue_all v ms).send_packet_queue ≡ w.send_packet_queue ++ ms)
        × ((queue_all v ms).in_flight ≡ false)
        × ((queue_all v ms).written ≡ w.written))
      (some-injective _ _ e) (stuck ms (record w { in_flight = false; closed = true }) h)
