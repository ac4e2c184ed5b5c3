-- ===== src/Tests/Registries.antt =====
-- A registry with one session and concrete connections.
use bridge_sessions.Base.{◌≡◌, ◌≤◌, refl, true, false, some, [], ◌∷◌, codes}
use bridge_sessions.Base.Signed.{pos}
use bridge_sessions.Base.TextMap.{find}
use bridge_sessions.Session.Registry.{
  user, client_override, attached, Attachment, Runtime, Session, Registry, apply_min_geometry,
}
use bridge_sessions.Session.Registry.Attach.{AttachArgs, Host, attach_connection}
use bridge_sessions.Session.Registry.Operations.{WellFormed}
use bridge_sessions.Session.Registry.Steps.{
  attach_step, detach_step, kill_step, empty_registry, run_steps, run_steps-WellFormed,
}
use bridge_sessions.Session.Registry.Owner.{IsSame, attach_connection-IsSame}
use bridge_sessions.Session.Registry.Size.{apply_min_geometry-le}

abbrev shell : Runtime
shell = record {
  hosted = false;
  is_open = true;
  child_pid = pos 77;
  pty_size = (80, 24);
  created_at = 5;
}

abbrev host : Host
host = record { now = 9; stopped = true; spawned = some shell }

abbrev args : AttachArgs
args = record {
  name = codes "work";
  command = codes "top";
  source = client_override;
  cols = 100;
  rows = 30;
  pubkey = codes "ab";
  spectator = false;
  require_existing_live = false;
}

run_steps-WellFormed_example : WellFormed (
    run_steps
      (attach_step host args ∷ detach_step 1 ∷ kill_step 12 (codes "work") ∷ [])
      empty_registry)
run_steps-WellFormed_example =
    run_steps-WellFormed (attach_step host args ∷ detach_step 1 ∷ kill_step 12 (codes "work") ∷ [])

abbrev pane : Attachment
pane = record { cols = 90; rows = 40; spectator = true; pubkey = codes "cd" }

abbrev work : Session
work = record {
  name = codes "work";
  peer_ids = codes "cd" ∷ [];
  attachments = (1, pane) ∷ [];
  detach_signal = [];
  owner_pubkey = codes "cd";
  kind = user;
  state = attached;
  runtime = shell;
  total_written = 0;
  history_recorded = false;
}

abbrev one_session : Registry
one_session = record {
  sessions = (codes "work", work) ∷ [];
  next_attach_id = 2;
  recent = [];
  signalled = [];
}

attach_connection-IsSame_example :
    (t : Session) × (find (codes "work") (attach_connection host args one_session).1.sessions
      ≡ some t)
    × IsSame work t
attach_connection-IsSame_example = attach_connection-IsSame host args one_session work refl

apply_min_geometry-le_example :
    ((apply_min_geometry work).runtime.pty_size.0 ≤ 90)
    × ((apply_min_geometry work).runtime.pty_size.1 ≤ 40)
apply_min_geometry-le_example = apply_min_geometry-le work 1 pane refl refl
