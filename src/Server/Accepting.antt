-- ===== src/Server/Accepting.antt =====
-- How long connections are accepted.
use peerpaste.Base.{
  ℕ, zero, suc, ◌+◌, ◌≡◌, refl, sym, ap, ◌∙◌, Option, none, some, List, [], ◌∷◌, ◌++◌, arith,
}
use mathlib.Core.List.{append-nil, append_assoc}
use peerpaste.Session.{ErrorCode, success, operation_aborted, other_error}
use peerpaste.Server.{
  Server, accept_connections, take_connection, handle_new_connection, poll, poll_all,
}

-- How many accepts end well before the first that does not.
abbrev pub successes : List ErrorCode → ℕ
successes [] = 0
successes (success ∷ ecs) = suc (successes ecs)
successes (operation_aborted ∷ ecs) = 0
successes (other_error ∷ ecs) = 0

-- `n` addresses from `a` on.
abbrev pub addresses : ℕ → ℕ → List ℕ
addresses a zero = []
addresses a (suc n) = a ∷ addresses (a + 1) n

-- The session that waits then: none any more behind an accept that failed.
abbrev pub waiting : ℕ → List ErrorCode → Option ℕ
waiting a [] = some a
waiting a (success ∷ ecs) = waiting (a + 1) ecs
waiting a (operation_aborted ∷ ecs) = none
waiting a (other_error ∷ ecs) = none

poll_all-idle : (s : Server) (ecs : List ErrorCode) → s.pending ≡ none → poll_all s ecs ≡ s
unfolding poll_all poll
poll_all-idle s [] e = refl
poll_all-idle s (ec ∷ ecs) e = ap (λ x. poll_all x ecs) (still ec) ∙ poll_all-idle s ecs e
  where
    still : (c : ErrorCode) → poll s c ≡ s
    still c = ground arith

poll-success :
    (s : Server) (port a : ℕ)
    → s.acceptor ≡ some port
    → s.pending ≡ some a
    → s.next_session ≡ a + 1
    → poll s success
      ≡ record s { pending = some (a + 1); next_session = (a + 1) + 1; reads = s.reads ++ a ∷ [] }
unfolding poll handle_new_connection take_connection accept_connections
poll-success s port a o w n = ground arith

poll-failed :
    (s : Server) (a : ℕ) (ec : ErrorCode)
    → s.pending ≡ some a
    → successes (ec ∷ []) ≡ 0
    → poll s ec ≡ record s { pending = none }
unfolding poll handle_new_connection
poll-failed s a success w f = absurd (omega arith)
poll-failed s a operation_aborted w f = ground arith
poll-failed s a other_error w f = ground arith

stopped :
    (s : Server) (port a : ℕ) (ec : ErrorCode) (ecs : List ErrorCode)
    → s.acceptor ≡ some port
    → s.pending ≡ some a
    → successes (ec ∷ []) ≡ 0
    → ((poll_all (poll s ec) ecs).reads ≡ s.reads ++ [])
      × ((poll_all (poll s ec) ecs).pending ≡ none)
      × ((poll_all (poll s ec) ecs).acceptor ≡ some port)
stopped s port a ec ecs o w f =
    let t : Server = record s { pending = none } in
    let same : poll_all (poll s ec) ecs ≡ t =
      ap (λ x. poll_all x ecs) (poll-failed s a ec w f) ∙ poll_all-idle t ecs refl in
    (
      ap (λ x. x.reads) same ∙ sym (append-nil s.reads),
      ap (λ x. x.pending) same,
      ap (λ x. x.acceptor) same ∙ o,
    )

-- A server that listens and waits for a connection accepts one for each accept that ends well, up to the
-- first that fails: exactly these sessions read, in order and each once. With that first failure it
-- waits for no connection any more, whatever comes then, although it still listens.
pub poll_all-accepts :
    (s : Server) (port a : ℕ) (ecs : List ErrorCode)
    → s.acceptor ≡ some port
    → s.pending ≡ some a
    → s.next_session ≡ a + 1
    → ((poll_all s ecs).reads ≡ s.reads ++ addresses a (successes ecs))
      × ((poll_all s ecs).pending ≡ waiting a ecs)
      × ((poll_all s ecs).acceptor ≡ some port)
unfolding poll_all
poll_all-accepts s port a [] o w n = (sym (append-nil s.reads), w, o)
poll_all-accepts s port a (success ∷ ecs) o w n =
    let t : Server = record s {
      pending = some (a + 1);
      next_session = (a + 1) + 1;
      reads = s.reads ++ a ∷ [];
    } in
    let (reads, pending, open_still) = poll_all-accepts t port (a + 1) ecs o refl refl in
    let same : poll_all (poll s success) ecs ≡ poll_all t ecs =
      ap (λ x. poll_all x ecs) (poll-success s port a o w n) in
    (
      ap (λ x. x.reads) same
          ∙ reads
          ∙ append_assoc s.reads (a ∷ []) (addresses (a + 1) (successes ecs)),
      ap (λ x. x.pending) same ∙ pending,
      ap (λ x. x.acceptor) same ∙ open_still,
    )
poll_all-accepts s port a (operation_aborted ∷ ecs) o w n =
    stopped s port a operation_aborted ecs o w refl
poll_all-accepts s port a (other_error ∷ ecs) o w n = stopped s port a other_error ecs o w refl
