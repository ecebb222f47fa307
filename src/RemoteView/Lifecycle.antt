-- ===== src/RemoteView/Lifecycle.antt =====
-- The server's listening socket, thread and WinSock calls over any sequence of restarts.
use just_in_time.Prelude.{◌≡◌, refl, ap, ◌∙◌, if◌then◌else◌, Bool, false, arith}
use just_in_time.Settings.{AppSettings}
use just_in_time.RemoteView.{
  Remote, Starting, remoteview_start, remoteview_stop, remoteview_restart,
}

abbrev pub at_rest : Remote
at_rest = record {
  listening = false;
  has_thread = false;
  running = false;
  startups = 0;
  accepting = 0;
}

-- What the program does with the server: `main` starts it once, when it does not run yet, and stops it
-- at its end, and the page of the settings restarts it, with whatever settings there are then.
-- `remoteview_start` itself does not ask whether the server runs.
pub data Step (r : Remote) : Remote → Type 0 where
  start : (s : AppSettings) (o : Starting) → r.running ≡ false → Step r (remoteview_start s o r).0
  stop : (ends : Bool) → Step r (remoteview_stop ends r)
  restart :
      (s : AppSettings) (o : Starting) (ends : Bool) → Step r (remoteview_restart s o ends r).0

pub data Reach : Remote → Type 0 where
  here : Reach at_rest
  next : {r r' : Remote} → Reach r → Step r r' → Reach r'

-- A call of WSAStartup is unanswered, and the listening socket is open, exactly while the server runs;
-- an accepting thread may outlive its server.
pub record IsBalanced (r : Remote) : Type 0 where
  pub startups : r.startups ≡ (if r.running then 1 else 0)
  pub listening : r.listening ≡ r.running
  pub no_thread : r.running ≡ false → r.has_thread ≡ false

start-IsBalanced :
    (s : AppSettings) (o : Starting) (r : Remote)
    → r.running ≡ false
    → IsBalanced r
    → IsBalanced (remoteview_start s o r).0
unfolding remoteview_start
start-IsBalanced s o r h b = ground arith

stop-IsBalanced : (ends : Bool) (r : Remote) → IsBalanced r → IsBalanced (remoteview_stop ends r)
unfolding remoteview_stop
stop-IsBalanced ends r b = ground arith

stop-running : (ends : Bool) (r : Remote) → (remoteview_stop ends r).running ≡ false
unfolding remoteview_stop
stop-running ends r = ground arith

Step-IsBalanced : {r r' : Remote} → Step r r' → IsBalanced r → IsBalanced r'
Step-IsBalanced {r} (start s o h) b = start-IsBalanced s o r h b
Step-IsBalanced {r} (stop ends) b = stop-IsBalanced ends r b
Step-IsBalanced {r} (restart s o ends) b =
    unfold remoteview_restart in
    start-IsBalanced s o (remoteview_stop ends r) (stop-running ends r) (stop-IsBalanced ends r b)

pub Reach-IsBalanced : {r : Remote} → Reach r → IsBalanced r
Reach-IsBalanced here = record { startups = refl; listening = refl; no_thread = λ e. refl }
Reach-IsBalanced (next reach st) = Step-IsBalanced st (Reach-IsBalanced reach)

-- After any sequence of restarts, stops and starts, each start while the server does not run, with any
-- settings and any calls failing, stopping the server leaves the listening socket closed, no handle of
-- a thread, and no call of WSAStartup unanswered.
pub stop_cleans_up :
    (r : Remote) (ends : Bool)
    → Reach r
    → ((remoteview_stop ends r).listening ≡ false)
      × ((remoteview_stop ends r).has_thread ≡ false)
      × ((remoteview_stop ends r).startups ≡ 0)
stop_cleans_up r ends reach =
    let b = stop-IsBalanced ends r (Reach-IsBalanced reach) in
    let off = stop-running ends r in
    (b.listening ∙ off, b.no_thread off, b.startups ∙ ap (λ x. if x then 1 else 0) off)
