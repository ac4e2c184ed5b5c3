-- ===== src/Session/Registry/Steps.antt =====
-- Whatever connections do, in whatever order, the registry stays well-formed.
use bridge_sessions.Base.{ℕ, List, [], ◌∷◌, arith}
use bridge_sessions.Session.Registry.{Registry}
use bridge_sessions.Session.Registry.Attach.{AttachArgs, Host, attach_connection}
use bridge_sessions.Session.Registry.Detach.{
  drop_pubkey, drop_all, set_attachment_geometry, detach, detach_pubkey, detach_all, kill,
}
use bridge_sessions.Session.Registry.Consistent.{resize_attachment-IsConsistent}
use bridge_sessions.Session.Registry.Leaving.{
  detach-IsConsistent, drop_pubkey-IsConsistent, drop_all-IsConsistent,
}
use bridge_sessions.Session.Registry.Operations.{
  WellFormed, update_session-All, attach-WellFormed, detach_found-WellFormed, kill-WellFormed,
}

-- What connections and operators do to the registry.
pub data Step : Type 0 where
  attach_step : Host → AttachArgs → Step
  resize_step : ℕ → ℕ → ℕ → Step
  detach_step : ℕ → Step
  detach_pubkey_step : List ℕ → List ℕ → Step
  detach_all_step : List ℕ → Step
  kill_step : ℕ → List ℕ → Step

abbrev pub run_step : Step → Registry → Registry
run_step (attach_step host args) r = (attach_connection host args r).1
run_step (resize_step id cols rows) r = set_attachment_geometry id cols rows r
run_step (detach_step id) r = (detach id r).1
run_step (detach_pubkey_step name key) r = (detach_pubkey name key r).1
run_step (detach_all_step name) r = (detach_all name r).1
run_step (kill_step now name) r = (kill now name r).1

abbrev pub run_steps : List Step → Registry → Registry
run_steps [] r = r
run_steps (s ∷ steps) r = run_steps steps (run_step s r)

step-WellFormed : (s : Step) (r : Registry) → WellFormed r → WellFormed (run_step s r)
unfolding set_attachment_geometry detach detach_pubkey detach_all
step-WellFormed (attach_step host args) r h = attach-WellFormed host args r h
step-WellFormed (resize_step id cols rows) r h = record {
  sessions =
      update_session-All id _ r.sessions (resize_attachment-IsConsistent id cols rows) h.sessions;
  recent = h.recent;
}
step-WellFormed (detach_step id) r h = record {
  sessions = update_session-All id _ r.sessions (detach-IsConsistent id) h.sessions;
  recent = h.recent;
}
step-WellFormed (detach_pubkey_step name key) r h =
    detach_found-WellFormed (drop_pubkey key) name r (drop_pubkey-IsConsistent key) h
step-WellFormed (detach_all_step name) r h =
    detach_found-WellFormed drop_all name r drop_all-IsConsistent h
step-WellFormed (kill_step now name) r h = kill-WellFormed now name r h

abbrev pub empty_registry : Registry
empty_registry = record { sessions = []; next_attach_id = 1; recent = []; signalled = [] }

run_steps-keeps : (steps : List Step) (r : Registry) → WellFormed r → WellFormed (run_steps steps r)
run_steps-keeps [] r h = h
run_steps-keeps (s ∷ steps) r h = run_steps-keeps steps (run_step s r) (step-WellFormed s r h)

-- Behind every sequence of attaches, resizes, detaches and kills, whatever the spawns give, each session is
-- attached just when it has an attachment, none has the id 0, and at most 50 recent sessions are kept.
pub run_steps-WellFormed : (steps : List Step) → WellFormed (run_steps steps empty_registry)
run_steps-WellFormed steps =
    run_steps-keeps steps empty_registry (record { sessions = tt; recent = omega arith })
