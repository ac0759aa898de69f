-- ===== src/Session/Posting.antt =====
-- What one call or one end of a write makes of what a session of src/boost_session.cpp has taken on.
use mathlib.Core.List.{append-nil, append_assoc}
use mathlib.Core.Option.{some-injective}
use peerpaste.Base.{
  if◌then◌else◌, Bytes, ℕ, zero, suc, ◌+◌, ◌≡◌, refl, sym, ap, ap₂, ◌∙◌, Bool, true, false, not,
  ◌&&◌, Option, none, some, List, [], ◌∷◌, ◌++◌, arith,
}
use peerpaste.Session.{
  ErrorCode, success, operation_aborted, other_error, Writer, is_empty, queue_message,
  packet_send_done,
}
use peerpaste.Session.Connection.{
  Posted, queued, direct, Connection, behind, pick, write, is_error, handle_connect, run_posted,
  direct_done, send_done, Happening, writes, writes_direct, writes_to, connected, runs_posted,
  directly_done, sent, step,
}

-- The weight of a list, by that of each member. With a test for one member this counts it.
abbrev pub weight {ℓ} : {A : Type ℓ} → (A → ℕ) → List A → ℕ
weight f [] = 0
weight f (a ∷ rest) = f a + weight f rest

pub weight-append {ℓ} :
    {A : Type ℓ} (f : A → ℕ) (l m : List A) → weight f (l ++ m) ≡ weight f l + weight f m
weight-append f [] m = omega arith
weight-append f (a ∷ rest) m = omega (arith, weight-append f rest m)

behind-pick {ℓ} :
    {A : Type ℓ} (f : A → ℕ) (b : A) (l : List A) (a : A) (rest : List A) (r : Option (A × List A))
    → ((c : A) (others : List A) → r ≡ some (c, others) → weight f l ≡ f c + weight f others)
    → behind b r ≡ some (a, rest)
    → f b + weight f l ≡ f a + weight f rest
behind-pick f b l a rest none ih e = cc
behind-pick f b l a rest (some (c, others)) ih e =
    omega (arith, ih c others refl, ap (λ p. f p.0 + weight f p.1) (some-injective _ _ e))

weight-pick {ℓ} :
    {A : Type ℓ} (f : A → ℕ) (n : ℕ) (l : List A) (a : A) (rest : List A)
    → pick n l ≡ some (a, rest)
    → weight f l ≡ f a + weight f rest
weight-pick f n [] a rest e = cc
weight-pick f zero (b ∷ l) a rest e = ap (λ p. f p.0 + weight f p.1) (some-injective _ _ e)
weight-pick f (suc n) (b ∷ l) a rest e =
    behind-pick f b l a rest (pick n l) (λ c others q. weight-pick f n l c others q) e

-- The messages that a session has taken on: to be queued, queued and written, and to be written at once,
-- at work and over.
abbrev pub taken_on : (Posted → ℕ) → Connection → ℕ
taken_on f c =
    weight (λ m. f (queued m)) c.writer.written
    + weight (λ m. f (queued m)) c.writer.send_packet_queue
    + weight f c.posted
    + weight (λ m. f (direct m)) c.directs
    + weight (λ r. f (direct r.0)) c.results

-- The message whose attempt to connect has ended, and the others.
abbrev gained_by : Option (Bytes × List Bytes) → Bool → List Posted
gained_by none failed = []
gained_by (some (m, ms)) failed = if failed then [] else queued m ∷ []

abbrev still_by : List Bytes → Option (Bytes × List Bytes) → List Bytes
still_by ms none = ms
still_by ms (some (m, others)) = others

-- The messages that a step adds, and those that then wait for a connection, if `ms` do.
abbrev pub gained : List Bytes → Happening → List Posted
gained ms (writes m) = queued m ∷ []
gained ms (writes_direct m) = direct m ∷ []
gained ms (connected n ec) = gained_by (pick n ms) (is_error ec)
gained ms h = []

abbrev pub still : List Bytes → Happening → List Bytes
still ms (writes_to m) = ms ++ m ∷ []
still ms (connected n ec) = still_by ms (pick n ms)
still ms h = ms

-- The messages that are given to a session: those that are written, in either way, and those that wait for
-- a connection when it is there.
unfoldable pub accepted : List Bytes → List Happening → List Posted
accepted ms [] = []
accepted ms (h ∷ hs) = gained ms h ++ accepted (still ms h) hs

-- What is written and then what is queued, in the order in which it goes out.
abbrev pub outgoing : Connection → List Bytes
outgoing c = c.writer.written ++ c.writer.send_packet_queue

-- A packet that is being written stands in the queue.
abbrev pub IsSound : Writer → Type 0
IsSound w = (w.in_flight && is_empty w.send_packet_queue) ≡ false

-- What a step makes of `c`. At most one message joins what goes out, behind the others.
pub record Becomes (c : Connection) (h : Happening) (d : Connection) : Type 0 where
  pub steps : step c h ≡ some d
  pub takes : (f : Posted → ℕ) → taken_on f d ≡ taken_on f c + weight f (gained c.connects h)
  pub waits : d.connects ≡ still c.connects h
  pub joins : (ms : List Bytes) × (outgoing d ≡ outgoing c ++ ms)
  pub sound : IsSound d.writer

-- There is a result.
abbrev pub Goes : Connection → Happening → Type 0
Goes c h = (d : Connection) × Becomes c h d

-- Nothing goes out.
pub nothing : (c : Connection) → (ms : List Bytes) × (outgoing c ≡ outgoing c ++ ms)
nothing c = ([], sym (append-nil (outgoing c)))

pub handle_connect-Becomes :
    (c : Connection) (n : ℕ) (ec : ErrorCode) (r : Option (Bytes × List Bytes)) (failed : Bool)
    → pick n c.connects ≡ r
    → is_error ec ≡ failed
    → IsSound c.writer
    → Goes c (connected n ec)
unfolding step handle_connect write
handle_connect-Becomes c n ec none failed e t i = (
  c,
  record {
    steps = ground (arith, e);
    takes = λ f. omega (arith, ap (λ r. weight f (gained_by r (is_error ec))) e);
    waits = ap (λ r. still_by c.connects r) (sym e);
    joins = nothing c;
    sound = i;
  },
)
handle_connect-Becomes c n ec (some (m, ms)) true e t i = (
  record c { connects = ms },
  record {
    steps = ground (arith, e, t);
    takes = λ f. omega (arith, ap₂ (λ r b. weight f (gained_by r b)) e t);
    waits = ap (λ r. still_by c.connects r) (sym e);
    joins = nothing c;
    sound = i;
  },
)
handle_connect-Becomes c n ec (some (m, ms)) false e t i = (
  record c { connects = ms; posted = c.posted ++ queued m ∷ [] },
  record {
    steps = ground (arith, e, t);
    takes = λ f. omega (
      arith,
      ap₂ (λ r b. weight f (gained_by r b)) e t,
      weight-append f c.posted (queued m ∷ []),
    );
    waits = ap (λ r. still_by c.connects r) (sym e);
    joins = nothing c;
    sound = i;
  },
)

pub and_false : (b : Bool) → (b && false) ≡ false
and_false true = refl
and_false false = refl

pub not_and : (b : Bool) → (not b && b) ≡ false
not_and true = refl
not_and false = refl

pub is_empty-append : (ms : List Bytes) (m : Bytes) → is_empty (ms ++ m ∷ []) ≡ false
is_empty-append [] m = refl
is_empty-append (n ∷ ms) m = refl

pub queue_message-queue :
    (w : Writer) (m : Bytes)
    → ((queue_message w m).send_packet_queue ≡ w.send_packet_queue ++ m ∷ [])
      × ((queue_message w m).written ≡ w.written)
unfolding queue_message
queue_message-queue w m = ground arith

pub queue_message-IsSound : (w : Writer) (m : Bytes) → IsSound w → IsSound (queue_message w m)
queue_message-IsSound w m i =
    ap (λ q. (queue_message w m).in_flight && is_empty q) ((queue_message-queue w m).0)
    ∙ ap (λ b. (queue_message w m).in_flight && b) (is_empty-append w.send_packet_queue m)
    ∙ and_false (queue_message w m).in_flight

pub run_posted-Becomes :
    (c : Connection) (n : ℕ) (r : Option (Posted × List Posted))
    → pick n c.posted ≡ r
    → IsSound c.writer
    → Goes c (runs_posted n)
unfolding step run_posted
run_posted-Becomes c n none e i = (
  c,
  record {
    steps = ground (arith, e);
    takes = λ f. omega arith;
    waits = refl;
    joins = nothing c;
    sound = i;
  },
)
run_posted-Becomes c n (some (queued m, ps)) e i =
    let w : Writer = c.writer in
    let (queue, written) = queue_message-queue w m in
    (
      record c { posted = ps; writer = queue_message w m },
      record {
        steps = ground (arith, e);
        takes = λ f. omega (
          arith,
          ap (weight (λ x. f (queued x))) queue,
          ap (weight (λ x. f (queued x))) written,
          weight-append (λ x. f (queued x)) w.send_packet_queue (m ∷ []),
          weight-pick f n c.posted (queued m) ps e,
        );
        waits = refl;
        joins = (
          m ∷ [],
          ap₂ ◌++◌ written queue ∙ sym (append_assoc w.written w.send_packet_queue (m ∷ [])),
        );
        sound = queue_message-IsSound w m i;
      },
    )
run_posted-Becomes c n (some (direct m, ps)) e i = (
  record c { posted = ps; directs = c.directs ++ m ∷ [] },
  record {
    steps = ground (arith, e);
    takes = λ f. omega (
      arith,
      weight-append (λ x. f (direct x)) c.directs (m ∷ []),
      weight-pick f n c.posted (direct m) ps e,
    );
    waits = refl;
    joins = nothing c;
    sound = i;
  },
)

pub direct_done-Becomes :
    (c : Connection) (n : ℕ) (ec : ErrorCode) (r : Option (Bytes × List Bytes))
    → pick n c.directs ≡ r
    → IsSound c.writer
    → Goes c (directly_done n ec)
unfolding step direct_done
direct_done-Becomes c n ec none e i = (
  c,
  record {
    steps = ground (arith, e);
    takes = λ f. omega arith;
    waits = refl;
    joins = nothing c;
    sound = i;
  },
)
direct_done-Becomes c n ec (some (m, ms)) e i = (
  record c { directs = ms; results = c.results ++ (m, is_error ec) ∷ [] },
  record {
    steps = ground (arith, e);
    takes = λ f. omega (
      arith,
      weight-append (λ x. f (direct x.0)) c.results ((m, is_error ec) ∷ []),
      weight-pick (λ x. f (direct x)) n c.directs m ms e,
    );
    waits = refl;
    joins = nothing c;
    sound = i;
  },
)

-- The write of a packet ends: the packet goes from the queue to what is written, or stays.
pub packet_send_done-keeps :
    (w : Writer) (ec : ErrorCode) (q : List Bytes)
    → w.send_packet_queue ≡ q
    → w.in_flight ≡ true
    → IsSound w
    → (v : Writer) × (packet_send_done w ec ≡ some v)
      × IsSound v
      × (v.written ++ v.send_packet_queue ≡ w.written ++ w.send_packet_queue)
unfolding packet_send_done
packet_send_done-keeps w ec [] e f i = ground (arith, e, f, i)
packet_send_done-keeps w success (p ∷ ps) e f i = (
  record w { send_packet_queue = ps; in_flight = not (is_empty ps); written = w.written ++ p ∷ [] },
  ground (arith, e),
  not_and (is_empty ps),
  append_assoc w.written (p ∷ []) ps ∙ ap (λ l. w.written ++ l) (sym e),
)
packet_send_done-keeps w operation_aborted (p ∷ ps) e f i =
    (record w { in_flight = false }, refl, refl, refl)
packet_send_done-keeps w other_error (p ∷ ps) e f i =
    (record w { in_flight = false; closed = true }, refl, refl, refl)

pub send_done-Becomes :
    (c : Connection) (ec : ErrorCode) (b : Bool)
    → c.writer.in_flight ≡ b
    → IsSound c.writer
    → Goes c (sent ec)
unfolding step send_done
send_done-Becomes c ec false e i = (
  c,
  record {
    steps = ground (arith, e);
    takes = λ f. omega arith;
    waits = refl;
    joins = nothing c;
    sound = i;
  },
)
send_done-Becomes c ec true e i =
    let (w, same, sound, keeps) = packet_send_done-keeps c.writer ec _ refl e i in
    (
      record c { writer = w },
      record {
        steps = ground (arith, e, same);
        takes = λ f. omega (
          arith,
          ap (weight (λ x. f (queued x))) keeps,
          weight-append (λ x. f (queued x)) w.written w.send_packet_queue,
          weight-append (λ x. f (queued x)) c.writer.written c.writer.send_packet_queue,
        );
        waits = refl;
        joins = ([], keeps ∙ sym (append-nil (outgoing c)));
        sound = sound;
      },
    )
