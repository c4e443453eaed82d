-- ===== src/Examples/Tests.antt =====
-- The example plugins at concrete inputs.
use mathlib.Core.List.{append-nil}
use bloem_plugin_sdk.Base.{
  ℕ, String, true, false, List, [], ◌∷◌, ◌++◌, drop, map, Option, none, some, Result, ok, err,
  concat, length, ◌≡◌, refl, arith, lookup,
}
use bloem_plugin_sdk.Base.Int.{pos}
use bloem_plugin_sdk.Values.{Any}
use bloem_plugin_sdk.Manifest.Tests.{packages, system}
use bloem_plugin_sdk.Manifest.Loading.{load_with_checksum}
use bloem_plugin_sdk.RuntimeHost.Events.{EventMessage}
use bloem_plugin_sdk.Examples.Startup.{load_manifest, IsSameStart, load_manifest-load_with_checksum}
use bloem_plugin_sdk.Examples.Ping.{Process, ping_payload, bind, run_tasks}
use bloem_plugin_sdk.Examples.Ping.Laws.{run_tasks-bind}
use bloem_plugin_sdk.Base.Decimal.{Bytes}
use bloem_plugin_sdk.Text.{trim_space, trim_left, trim_right}
use bloem_plugin_sdk.Examples.ScanSource.{
  no_file, reading, Seen, end_of_lines, complete_lines, poll_changes,
}
use bloem_plugin_sdk.Examples.ScanSource.Lines.{finished, end_of_lines_lem}
use bloem_plugin_sdk.Examples.ScanSource.Markers.{poll_changes-Marks, Marks}
use bloem_plugin_sdk.Examples.ScanSource.Polls.{report}
use bloem_plugin_sdk.Examples.ScanSource.Sequences.{
  Growth, IsConfigured, first_seen, grown_all, host_polls, host_polls_reported,
}
use bloem_plugin_sdk.RuntimeHost.Tests.{Store, read, write, store_host, store_host-IsStore}
use bloem_plugin_sdk.RuntimeHost.InstanceState.Laws.{response}
use bloem_plugin_sdk.RuntimeHost.HostInfo.{
  NetworkAccessListener, NetworkAccessStatus, AccessHost, get_host_info,
}
use bloem_plugin_sdk.Examples.NetworkAccess.{
  Hosts, Provider, new_provider, intent, connects, disconnects, gets_status, status_locked,
  restore_locked, persist_locked, report_locked, connect, get_status, call, run,
}
use bloem_plugin_sdk.Examples.NetworkAccess.Laws.{IsConsistent, call-IsConsistent}
use bloem_plugin_sdk.Examples.NetworkAccess.Intent.{
  Later, asks, restarts, follow, IsKeeper, intent_survives,
}

-- "a\nb", and what is appended to it: "c\n", then " \nd/\ne"
abbrev log : Bytes
log = b'a' ∷ b'\n' ∷ b'b' ∷ []

abbrev first_line : Bytes
first_line = b'c' ∷ b'\n' ∷ []

abbrev more_lines : Bytes
more_lines = b' ' ∷ b'\n' ∷ b'd' ∷ b'/' ∷ b'\n' ∷ b'e' ∷ []

end_of_lines_lem_example : end_of_lines 0 0 (log ∷ first_line ∷ more_lines ∷ []) ≡ 10
unfolding complete_lines
end_of_lines_lem_example = end_of_lines_lem (log ∷ first_line ∷ more_lines ∷ [])

abbrev one_block : Bytes → List Bytes
one_block s = s ∷ []

one_block_whole : (s : Bytes) → concat (one_block s) ≡ s
one_block_whole s = append-nil s

abbrev config : List (String × String)
config = ("changes_file", " /log ") ∷ []

config-IsConfigured : IsConfigured one_block config
unfolding trim_space trim_left trim_right lookup
config-IsConfigured = refl

abbrev appends : Bytes → Growth
appends s = record { before_stat = s; before_check = []; before_read = []; fails = false }

abbrev breaks : Growth
breaks = record { before_stat = []; before_check = []; before_read = []; fails = true }

abbrev growths : List Growth
growths = breaks ∷ appends more_lines ∷ []

host_polls_reported_example :
    host_polls one_block config [] log (appends first_line ∷ growths)
    ≡ report (
        drop
          (length (finished (first_seen log (appends first_line))))
          (log ++ grown_all (appends first_line ∷ growths)))
host_polls_reported_example =
    host_polls_reported one_block config log (appends first_line) growths config-IsConfigured
      one_block_whole refl (omega arith)

abbrev missing : Seen
missing = record { stat = no_file; check = reading [] false; read = reading [] false }

poll_changes-Marks_example : Marks (
    poll_changes one_block
      (λ path. missing)
      (record { marker = b'0' ∷ []; source_config = config }))
poll_changes-Marks_example =
    poll_changes-Marks one_block (λ path. missing)
      (record { marker = b'0' ∷ []; source_config = config })

-- A host that is an association list and has two listeners.
abbrev stub_access : AccessHost Store ℕ
stub_access = record {
  host_info = λ s. (
    s,
    ok (record {
      public_base_url = "https://media.example";
      internal_base_url = "";
      plugin_proxy_base_url = "";
      host_role = "api";
      host_name = "den";
      node_id = pos 0;
      ingress_token = "t";
      listeners =
          some (record { name = "api"; address = "127.0.0.1:8080"; default_port = pos 443 })
          ∷ some (record { name = "jellyfin"; address = "127.0.0.1:8096"; default_port = pos 8096 })
          ∷ [];
    }),
  );
  report = λ status s. (s, ok tt);
}

abbrev present : Hosts
present = record { at_restore = true; at_call = true }

abbrev connected : Provider × Store
connected = (call store_host stub_access (connects present) new_provider []).0

connects_listeners :
    map {B = String × String}
      (λ (l : NetworkAccessListener). (l.name, l.origin))
      (status_locked connected.0).listeners
    ≡ ("api", "https://stub.invalid") ∷ ("jellyfin", "https://stub.invalid:8096") ∷ []
unfolding call connect restore_locked persist_locked get_host_info status_locked write
connects_listeners = refl

stub-IsKeeper : IsKeeper store_host stub_access
unfolding read
stub-IsKeeper = record {
  store = store_host-IsStore;
  read_keeps = λ key k s. refl;
  info_keeps = λ k s. refl;
  report_keeps = λ status k s. refl;
}

abbrev later : List Later
later = asks present ∷ restarts ∷ []

intent_survives_example :
    let at = follow store_host stub_access later connected in
    let now = get_status store_host stub_access present at.0 at.1 in
    (told : NetworkAccessStatus) × ((now.1 ≡ ok told) × (told.desired_connected ≡ true))
unfolding call connect restore_locked persist_locked get_host_info status_locked follow get_status
    report_locked read write
intent_survives_example =
    intent_survives store_host stub_access stub-IsKeeper true true true new_provider [] connected
      (status_locked connected.0) later (response (some (intent true))) refl refl

call-IsConsistent_example :
    let at =
      run store_host stub_access (connects present ∷ disconnects present ∷ []) (new_provider, []) in
    IsConsistent (call store_host stub_access (gets_status present) at.0 at.1).1
call-IsConsistent_example =
    call-IsConsistent store_host stub_access (connects present ∷ disconnects present ∷ [])
      (gets_status present) []

load_manifest-load_with_checksum_example :
    IsSameStart packages system
      (record { os = "linux"; arch = "amd64" })
      (load_manifest packages system (record { os = "linux"; arch = "amd64" }) [])
      (load_with_checksum packages system [] "")
load_manifest-load_with_checksum_example =
    load_manifest-load_with_checksum packages system (record { os = "linux"; arch = "amd64" }) []

-- A broker whose dial gives the stream, and a host that keeps the connections of its events.
abbrev dial : ℕ → ℕ → ℕ → Option ℕ
dial b id n = some id

abbrev keeps : ℕ → EventMessage (List (String × Any)) → List ℕ → List ℕ × Result ℕ (Unit {0})
keeps conn message conns = (conn ∷ conns, err 1)

abbrev started : Process ℕ ℕ (List ℕ) ℕ ℕ
started = record {
  plugin_host = record { broker = some 10; broker_id = 0; client = none; attempts = [] };
  world = [];
  log = [];
}

run_tasks-bind_example :
    ((run_tasks dial (λ m. ok m) keeps 2 (bind dial (λ m. ok m) keeps 7 started)).world
      ≡ 7 ∷ 7 ∷ [])
    × (length
          (run_tasks dial
            (λ m. ok m)
            keeps
            2
            (bind dial (λ m. ok m) keeps 7 started)).plugin_host.attempts
        ≡ 1)
run_tasks-bind_example =
    run_tasks-bind dial (λ m. ok m) keeps started 10 7 7 ping_payload 2 refl (ground arith) refl
      refl
