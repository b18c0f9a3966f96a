-- ===== src/Service.antt =====
-- pkg/session/service.go: what Connect does with one stream. The stream's first message comes as
-- an argument, and so does what Serve does to the session and answers.
pub mod Replace
use rclaude.Prelude.{ℕ, Option, none, some, Text, Result, ok, err, nat_eq, text_eq}
use rclaude.Prelude.Assoc
use rclaude.Session.{
  Session, SessionError, session_replaced, DaemonMessage, bootstrap, close_with_error,
}
use rclaude.Manager
use rclaude.Manager.{Manager, ManagerError, Heap, new_session_for, handle_disconnect}

pub data ConnectError : Type 0 where
  -- codes.Unauthenticated
  missing_user_id : ConnectError
  -- the error of stream.Recv
  recv_failed : ℕ → ConnectError
  -- codes.InvalidArgument
  bootstrap_failed : SessionError → ConnectError
  register_failed : ManagerError → ConnectError
  -- what Serve answered
  serve_failed : SessionError → ConnectError

-- prev.closeWithError(ErrSessionReplaced)
abbrev pub close_at : ℕ → Option Session → Heap → Heap
close_at ptr none heap = heap
close_at ptr (some s) heap = Assoc.insert ptr (close_with_error (some session_replaced) s) heap

unfoldable pub close_previous : Option ℕ → Heap → Heap
close_previous none heap = heap
close_previous (some prev) heap = close_at prev (Assoc.lookup prev heap) heap

abbrev pub registered :
    Heap → Manager × Result ManagerError (Option ℕ) → (Manager × Heap) × Option ConnectError
registered heap (m, err e) = ((m, heap), some (register_failed e))
registered heap (m, ok prev) = ((m, close_previous prev heap), none)

abbrev pub bootstrapped :
    ℕ → ℕ → Heap → Manager → Session × Option SessionError → (Manager × Heap) × Option ConnectError
bootstrapped now ptr heap m (s, some e) = ((m, heap), some (bootstrap_failed e))
bootstrapped now ptr heap m (s, none) =
    let stored = Assoc.insert ptr s heap in
    registered stored (Manager.register now stored (some ptr) m)

abbrev pub received :
    ℕ
    → ℕ
    → Text
    → Heap
    → Manager
    → Result ℕ (Option DaemonMessage)
    → (Manager × Heap) × Option ConnectError
received now ptr user heap m (err e) = ((m, heap), some (recv_failed e))
received now ptr user heap m (ok msg) =
    bootstrapped now ptr heap m (bootstrap now msg (new_session_for user m))

-- Connect up to Serve; `ptr` is the pointer of the new session
unfoldable pub open_session :
    ℕ
    → ℕ
    → Option Text
    → Result ℕ (Option DaemonMessage)
    → Heap
    → Manager
    → (Manager × Heap) × Option ConnectError
open_session now ptr none first heap m = ((m, heap), some missing_user_id)
open_session now ptr (some user) first heap m = received now ptr user heap m first

-- Connect
abbrev pub serve_at :
    (Session → Session × Option SessionError)
    → ℕ
    → Option Session
    → Heap
    → Heap × Option SessionError
serve_at serve ptr none heap = (heap, none)
serve_at serve ptr (some s) heap = let (t, e) = serve s in (Assoc.insert ptr t heap, e)

abbrev serve_error : Option SessionError → Option ConnectError
serve_error none = none
serve_error (some e) = some (serve_failed e)

abbrev pub served :
    ℕ → ℕ → ℕ → Manager → Heap × Option SessionError → (Manager × Heap) × Option ConnectError
served now later ptr m (heap, e) = (handle_disconnect now later (some ptr) e heap m, serve_error e)

unfoldable pub connect :
    (Session → Session × Option SessionError)
    → (now ended pruned ptr : ℕ) → Option Text
    → Result ℕ (Option DaemonMessage)
    → Heap
    → Manager
    → (Manager × Heap) × Option ConnectError
connect serve now ended pruned ptr user first heap m =
    let ((next, held), failed) = open_session now ptr user first heap m in
    elim failed [
      | some e ↦ ((next, held), some e)
      | none ↦ served ended pruned ptr next (serve_at serve ptr (Assoc.lookup ptr held) held)
    ]
