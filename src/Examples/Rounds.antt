-- ===== src/Examples/Rounds.antt =====
-- A round of stabilisation, an encrypted message, and the start of the program.
use peerpaste.Base.{
  ltb, Bytes, text, bytes_eq, bytes_lt, to_string, ℕ, ◌+◌, ◌%◌, ◌<◌, ◌≡◌, refl, ◌↔◌, Bool, true,
  false, Option, none, some, List, [], ◌∷◌, ◌++◌, arith,
}
use peerpaste.Ring.{between}
use peerpaste.Request.{Session}
use peerpaste.Factory.{Place}
use peerpaste.Stabilize.{Stabilize}
use peerpaste.Stabilize.Round.{round}
use peerpaste.Stabilize.Settled.{IsSettled, round-IsSettled}
use peerpaste.Table.{has_predecessor}
use peerpaste.CheckPredecessor.Watch
use peerpaste.CheckPredecessor.Watch.{Watch, Step, turns, passes, cleans}
use peerpaste.CheckPredecessor.Checks.{count, one_if}
use peerpaste.CheckPredecessor.Watching.{IsWatching, run-IsWatching}
use peerpaste.CheckPredecessor.Released.{run_releases}
use peerpaste.Crypt.{SecretBox, encrypt, decrypt}
use peerpaste.Crypt.Laws.{decrypt-encrypt}
use peerpaste.Session.{ErrorCode, success, operation_aborted}
use peerpaste.Session.Connection
use peerpaste.Session.Connection.{
  Posted, Connection, Happening, writes, writes_direct, writes_to, connected, runs_posted,
  directly_done, sent,
}
use peerpaste.Session.Posting.{weight, outgoing, taken_on, accepted, IsSound}
use peerpaste.Session.Sending.{run-accepted}
use peerpaste.Server.{Server, poll_all}
use peerpaste.Server.Accepting.{successes, addresses, waiting, poll_all-accepts}
use peerpaste.Program.{PeerPaste, Options, main}
use peerpaste.Program
use peerpaste.Program.Port.{short_limit, port_text, port_text-to_string}
use peerpaste.Program.Starting.{joins_of, options}
use peerpaste.Program.Endings.{IsRunning, way, expected, main-IsRunning, main-expected}
use peerpaste.Server.{u16_mod}
use peerpaste.Examples.Data.{peer_a, peer_c, peer_e, table_of, source, task_of}
use peerpaste.Examples.Files.{platform, lacking}
use peerpaste.Examples.Nodes.{node}

abbrev session : Session
session = record { number = 1; client_ip = text "10.0.0.9" }

-- `a` stabilises with its successor `c`, whose predecessor is `a`, and whose successor is `e`.
abbrev stabilizing : Stabilize
stabilizing = record {
  task = task_of none (table_of peer_a (some peer_e) (peer_c ∷ []));
  stabilize_flag = some true;
  dependencies = [];
}

abbrev successor : Place
successor = record {
  object = 90;
  source = source;
  table = table_of peer_c (some peer_a) (peer_e ∷ []);
}

round-IsSettled_example :
    (u : Stabilize) × (after : Place) × (round {p = platform} 50 session session stabilizing
        successor lacking
      ≡ some (u, after))
    × IsSettled u (peer_c ∷ peer_e ∷ [])
    × (after.table.predecessor ≡ some peer_a)
    × (after.table.successor_list ≡ peer_e ∷ [])
unfolding between bytes_lt bytes_eq
round-IsSettled_example =
    round-IsSettled {p = platform} 50 session session stabilizing successor lacking peer_a peer_c
      peer_c peer_a peer_e [] [] true refl refl refl refl refl refl refl refl

-- The authentication is one byte, and nothing is hidden.
abbrev box : SecretBox
box = record {
  key_bytes = 2;
  nonce_bytes = 1;
  mac_bytes = 1;
  easy = λ message nonce key. 7 ∷ message;
  open_easy = λ boxed nonce key. elim boxed [ [] ↦ none | b ∷ message ↦ some message ];
}

abbrev key : Bytes
key = 1 ∷ 2 ∷ 3 ∷ []

abbrev other_key : Bytes
other_key = 1 ∷ 2 ∷ 4 ∷ 5 ∷ []

decrypt-encrypt_example :
    (a : Bytes) × (encrypt box key (text "ab") ≡ some a)
    × (decrypt box (λ n. []) other_key a ≡ some (text "ab"))
decrypt-encrypt_example =
    decrypt-encrypt box (λ n. []) key other_key (text "ab")
      ((λ m nonce key. omega arith), λ m nonce key. refl) (omega arith) (omega arith) refl

abbrev listening : Server
listening = record {
  port = 1337;
  acceptor = some 1337;
  pending = some 3;
  next_session = 4;
  reads = [];
}

abbrev accepts : List ErrorCode
accepts = success ∷ success ∷ operation_aborted ∷ success ∷ []

poll_all-accepts_example :
    ((poll_all listening accepts).reads ≡ [] ++ addresses 3 (successes accepts))
    × ((poll_all listening accepts).pending ≡ waiting 3 accepts)
    × ((poll_all listening accepts).acceptor ≡ some 1337)
poll_all-accepts_example = poll_all-accepts listening 1337 3 accepts refl refl refl

port_text-to_string_example :
    (port_text 40000 ≡ to_string (40000 % u16_mod)) ↔ (40000 % u16_mod < short_limit)
port_text-to_string_example = port_text-to_string 40000

abbrev small : ℕ → Bool
small port = ltb port 2000

abbrev address : Bytes
address = text "10.0.0.1"

abbrev joining : Option (List Bytes)
joining = some (text "10.0.0.2" ∷ text "1338" ∷ [])

main-IsRunning_example :
    (x : PeerPaste platform) × (main small node (some (options address 1337 joining false true))
      ≡ Program.waiting x)
    × IsRunning node
        (options address 1337 joining false true)
        address
        1337
        ((text "10.0.0.2", text "1338") ∷ [])
        x
unfolding joins_of
main-IsRunning_example =
    main-IsRunning small node address 1337 joining false true ((text "10.0.0.2", text "1338") ∷ [])
      refl refl

main-expected_example :
    way (main small node (some (options address 1337 (some (address ∷ [])) false false)))
    ≡ expected small (options address 1337 (some (address ∷ [])) false false)
main-expected_example =
    main-expected small node (options address 1337 (some (address ∷ [])) false false)

-- A check is made, and time passes.
abbrev unwatched : Watch
unwatched = record {
  check_predecessor_flag = false;
  table = table_of peer_a (some peer_e) (peer_c ∷ []);
  source = source;
  next_object = 50;
  active_messages = [];
}

abbrev history : List Step
history = turns ∷ passes 3000 ∷ turns ∷ cleans ∷ []

run-IsWatching_example : (v : Watch) × (Watch.run history unwatched ≡ some v) × IsWatching v
run-IsWatching_example = run-IsWatching history unwatched refl refl

run_releases_example :
    (v : Watch) × (u : Watch) × (Watch.run (history ++ passes 10001 ∷ cleans ∷ []) unwatched
      ≡ some v)
    × (v.check_predecessor_flag ≡ false)
    × (v.active_messages ≡ [])
    × (Watch.turn v ≡ some u)
    × (u.check_predecessor_flag ≡ has_predecessor v.table)
    × (count u.active_messages ≡ one_if (has_predecessor v.table))
run_releases_example = run_releases history unwatched 10001 refl refl (omega arith)

-- One message waits for a connection, one is written and one is written at once.
abbrev happenings : List Happening
happenings =
    writes_to (text "a")
    ∷ writes (text "b")
    ∷ runs_posted 0
    ∷ writes_direct (text "c")
    ∷ connected 0 success
    ∷ sent success
    ∷ runs_posted 1
    ∷ runs_posted 0
    ∷ directly_done 0 operation_aborted
    ∷ []

abbrev fresh : Connection
fresh = record {
  writer = record { send_packet_queue = []; in_flight = false; written = []; closed = false };
  posted = [];
  connects = [];
  directs = [];
  results = [];
}

run-accepted_example :
    (d : Connection) × (Connection.run fresh happenings ≡ some d)
    × ((f : Posted → ℕ)
        → taken_on f d ≡ taken_on f fresh + weight f (accepted fresh.connects happenings))
    × ((ms : List Bytes) × (outgoing d ≡ outgoing fresh ++ ms))
    × IsSound d.writer
run-accepted_example = run-accepted fresh happenings refl
