-- ===== src/Secrets/Sink.antt =====
-- `EventSink` of executor/event_sink.rs: what is forwarded for an event. The channel is tokio's.
use glidesh.Common.{
  ◌≡◌, refl, ◌≤◌, String, true, false, List, [], ◌∷◌, if◌then◌else◌, contains, All,
}
use glidesh.Common.Chars.{has_text, bytes}
use glidesh.Detect.{OsInfo}
use glidesh.Events.{
  ExecutorEvent, node_connecting, node_connected, node_auth_failed, step_started, module_check,
  module_result, module_failed, step_failed, step_skipped, step_waiting, section_started,
  task_skipped, batch_started, hosts_aborted, node_complete, run_complete,
}
use glidesh.Secrets.{SecretRegistry, is_empty, redact, min_redactable_len}
use glidesh.Secrets.Masking.{IsStarFree}
use glidesh.Secrets.Redaction.{IsSorted, redact-hides}

unfoldable pub redact_event : SecretRegistry → ExecutorEvent → ExecutorEvent
unfolding redact
redact_event registry (module_check host name resource) =
    module_check host name (redact registry resource)
redact_event registry (module_result host name resource changed dry_run stdout stderr exit_code) =
    module_result host name (redact registry resource) changed dry_run (redact registry stdout)
      (redact registry stderr) exit_code
redact_event registry (module_failed host name resource error) =
    module_failed host name (redact registry resource) (redact registry error)
redact_event registry (step_failed host step error) = step_failed host step (redact registry error)
redact_event registry (node_auth_failed host error) = node_auth_failed host (redact registry error)
redact_event registry (step_skipped host step tasks reason) =
    step_skipped host step tasks (redact registry reason)
redact_event registry (step_waiting host step command elapsed_secs timeout_secs first preview) =
    step_waiting host step (redact registry command) elapsed_secs timeout_secs first preview
redact_event registry (task_skipped host name resource reason) =
    task_skipped host name (redact registry resource) (redact registry reason)
redact_event registry event = event

-- What `send` passes on.
unfoldable pub send : SecretRegistry → ExecutorEvent → ExecutorEvent
unfolding is_empty redact_event
send registry event = if is_empty registry then event else redact_event registry event

abbrev pub os_texts : OsInfo → List String
os_texts os =
    os.id ∷ os.version ∷ os.facts.hostname ∷ os.facts.kernel ∷ os.facts.arch ∷ os.facts.cpu_count
    ∷ os.facts.mem_total_mb ∷ os.facts.ip_default ∷ []

-- Every text that an event carries.
abbrev pub texts : ExecutorEvent → List String
texts (node_connecting host) = host ∷ []
texts (node_connected host os) = host ∷ os_texts os
texts (node_auth_failed host error) = host ∷ error ∷ []
texts (step_started host step index total) = host ∷ step ∷ []
texts (module_check host name resource) = host ∷ name ∷ resource ∷ []
texts (module_result host name resource changed dry_run stdout stderr exit_code) =
    host ∷ name ∷ resource ∷ stdout ∷ stderr ∷ []
texts (module_failed host name resource error) = host ∷ name ∷ resource ∷ error ∷ []
texts (step_failed host step error) = host ∷ step ∷ error ∷ []
texts (step_skipped host step tasks reason) = host ∷ step ∷ reason ∷ []
texts (step_waiting host step command elapsed timeout first preview) = host ∷ step ∷ command ∷ []
texts (section_started host step section) = host ∷ step ∷ []
texts (task_skipped host name resource reason) = host ∷ name ∷ resource ∷ reason ∷ []
texts (batch_started index total hosts) = hosts
texts (hosts_aborted hosts reason) = reason ∷ hosts
texts (node_complete host success changed skipped dry_run) = host ∷ []
texts (run_complete summary) = []

-- The texts that say what an event is about: the names of hosts, steps and modules, what a host
-- that connects says of its system, and the reason of an abort.
abbrev pub labels : ExecutorEvent → List String
labels (node_connecting host) = host ∷ []
labels (node_connected host os) = host ∷ os_texts os
labels (node_auth_failed host error) = host ∷ []
labels (step_started host step index total) = host ∷ step ∷ []
labels (module_check host name resource) = host ∷ name ∷ []
labels (module_result host name resource changed dry_run stdout stderr exit_code) = host ∷ name ∷ []
labels (module_failed host name resource error) = host ∷ name ∷ []
labels (step_failed host step error) = host ∷ step ∷ []
labels (step_skipped host step tasks reason) = host ∷ step ∷ []
labels (step_waiting host step command elapsed timeout first preview) = host ∷ step ∷ []
labels (section_started host step section) = host ∷ step ∷ []
labels (task_skipped host name resource reason) = host ∷ name ∷ []
labels (batch_started index total hosts) = hosts
labels (hosts_aborted hosts reason) = reason ∷ hosts
labels (node_complete host success changed skipped dry_run) = host ∷ []
labels (run_complete summary) = []

-- No one of the texts holds `p`.
abbrev pub Hide : String → List String → Type 0
Hide p = All (λ text. has_text text p ≡ false)

module _ (registry : SecretRegistry) (p : String)
    (hidden : (text : String) → has_text (redact registry text) p ≡ false) where
  redact_event-Hide :
      (event : ExecutorEvent) → Hide p (labels event) → Hide p (texts (redact_event registry event))
  unfolding redact_event
  redact_event-Hide (module_check host name resource) (h, (m, _)) = (h, (m, (hidden resource, tt)))
  redact_event-Hide (module_result host name resource changed dry stdout stderr code) (h, (m, _)) =
      (h, (m, (hidden resource, (hidden stdout, (hidden stderr, tt)))))
  redact_event-Hide (module_failed host name resource error) (h, (m, _)) =
      (h, (m, (hidden resource, (hidden error, tt))))
  redact_event-Hide (step_failed host step error) (h, (s, _)) = (h, (s, (hidden error, tt)))
  redact_event-Hide (node_auth_failed host error) (h, _) = (h, (hidden error, tt))
  redact_event-Hide (step_skipped host step tasks reason) (h, (s, _)) =
      (h, (s, (hidden reason, tt)))
  redact_event-Hide (step_waiting host step command elapsed timeout first preview) (h, (s, _)) =
      (h, (s, (hidden command, tt)))
  redact_event-Hide (task_skipped host name resource reason) (h, (m, _)) =
      (h, (m, (hidden resource, (hidden reason, tt))))
  redact_event-Hide (node_connecting host) h = h
  redact_event-Hide (node_connected host os) h = h
  redact_event-Hide (step_started host step index total) h = h
  redact_event-Hide (section_started host step section) h = h
  redact_event-Hide (batch_started index total hosts) h = h
  redact_event-Hide (hosts_aborted hosts reason) h = h
  redact_event-Hide (node_complete host success changed skipped dry_run) h = h
  redact_event-Hide (run_complete summary) h = h

  redact_event-labels :
      (event : ExecutorEvent) → labels (redact_event registry event) ≡ labels event
  unfolding redact_event
  redact_event-labels (module_check host name resource) = refl
  redact_event-labels (module_result host name resource changed dry_run stdout stderr code) = refl
  redact_event-labels (module_failed host name resource error) = refl
  redact_event-labels (step_failed host step error) = refl
  redact_event-labels (node_auth_failed host error) = refl
  redact_event-labels (step_skipped host step tasks reason) = refl
  redact_event-labels (step_waiting host step command elapsed timeout first preview) = refl
  redact_event-labels (task_skipped host name resource reason) = refl
  redact_event-labels (node_connecting host) = refl
  redact_event-labels (node_connected host os) = refl
  redact_event-labels (step_started host step index total) = refl
  redact_event-labels (section_started host step section) = refl
  redact_event-labels (batch_started index total hosts) = refl
  redact_event-labels (hosts_aborted hosts reason) = refl
  redact_event-labels (node_complete host success changed skipped dry_run) = refl
  redact_event-labels (run_complete summary) = refl

not_empty :
    (ss : List String) (p : String)
    → contains ss p ≡ true
    → is_empty (record { plaintexts = ss }) ≡ false
unfolding is_empty
not_empty [] p e = cc
not_empty (s ∷ ss) p e = refl

pub send-Hide :
    (registry : SecretRegistry) (event : ExecutorEvent) (p : String)
    → IsSorted registry
    → contains registry.plaintexts p ≡ true
    → min_redactable_len ≤ bytes p
    → IsStarFree p
    → Hide p (labels event)
    → Hide p (texts (send registry event)) × (labels (send registry event) ≡ labels event)
unfolding send
send-Hide registry event p s e m h named =
    let hidden = λ (text : String). redact-hides registry p text s e m h in
    rw (not_empty registry.plaintexts p e)
      (redact_event-Hide registry p hidden event named, redact_event-labels registry p hidden event)
