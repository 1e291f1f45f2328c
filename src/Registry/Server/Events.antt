-- ===== src/Registry/Server/Events.antt =====
-- The handlers of events, registry/server/handlers_events.go. The calls of the webhooks run beside
-- the response; they are given by the list of their requests.
use event_spec.Prelude.{
  Bool, ◌||◌, List, [], ◌∷◌, ◌++◌, Option, none, some, String, Text, codes, map, keep, text_eq,
  ◌==◌, if◌then◌else◌,
}
use event_spec.Spec.Schema.{EventDef, Float64}
use event_spec.Spec.Diff.{diff}
use event_spec.Spec.Workspace.{SourceDef}
use event_spec.Registry.Local.{ListFilter}
use event_spec.Registry.Store.{Reply, reply, missing, failed}
use event_spec.Registry.Store.Events.{default_status}
use event_spec.Registry.Server.{source_includes_event}
use event_spec.Registry.Server.Api.{
  Store, Body, an_event, some_events, some_changes, an_archive, Response, json_error, header_only,
  respond, respond_found, answer_write,
}

-- one request of fireWebhooks: the URL, the event and who published it
abbrev pub Post : Type 0
Post = String × (EventDef × String)

unfoldable pub posts_to : EventDef → String → Reply (List String) → List Post
posts_to event published_by (reply urls) = map (λ url. (url, (event, published_by))) urls
posts_to event published_by missing = []
posts_to event published_by (failed stage) = []

-- the file of an event in the archive
unfoldable pub archive_name : EventDef → Text
archive_name ev =
    codes ev.namespace ++ (b'/' ∷ (codes ev.name ++ (b'/' ∷ (ev.version ++ codes ".yaml"))))

unfoldable pub archive_of : SourceDef → List EventDef → Body
archive_of src defs = an_archive (
    map (λ ev. (archive_name ev, ev))
      (keep
        (λ ev. source_includes_event (map codes src.events) (codes ev.namespace) (codes ev.name))
        defs))

unfoldable pub misses_key : EventDef → Bool
misses_key event = (event.namespace == "") || ((event.name == "") || text_eq event.version [])

module _ {S : Type 0} (st : Store S) where
  -- func handleListEvents
  unfoldable pub handle_list_events : ListFilter → S → Response
  handle_list_events filter s = respond some_events (st.list_all_events filter s)

  -- func handleGetEvent
  unfoldable pub handle_get_event : String → String → S → Response
  handle_get_event namespace name s = respond_found an_event (st.get_event namespace name [] s)

  -- func handleGetEventVersion
  unfoldable pub handle_get_event_version : String → String → Text → S → Response
  handle_get_event_version namespace name version s =
      respond_found an_event (st.get_event namespace name version s)

  -- func handlePublishEvent
  unfoldable pub handle_publish_event : Option EventDef → String → S → Response × S
  handle_publish_event none user_id s = (json_error 400, s)
  handle_publish_event (some event) user_id s =
      if misses_key event
      then (json_error 400, s)
      else answer_write (header_only 201) (st.publish_event (default_status event) user_id s)

  -- func fireWebhooks
  unfoldable pub fire_webhooks : EventDef → String → S → List Post
  fire_webhooks event published_by s = posts_to event published_by (st.list_webhooks s)

  respond_diff : (Float64 → String) → Reply EventDef → Reply EventDef → Response
  respond_diff show_rate missing to = json_error 404
  respond_diff show_rate (failed stage) to = json_error 500
  respond_diff show_rate (reply from) missing = json_error 404
  respond_diff show_rate (reply from) (failed stage) = json_error 500
  respond_diff show_rate (reply from) (reply to) =
      respond some_changes (reply (diff show_rate from to))

  -- func handleDiff
  unfoldable pub handle_diff : (Float64 → String) → String → String → Text → Text → S → Response
  unfolding respond_diff
  handle_diff show_rate namespace name from to s =
      respond_diff show_rate (st.get_event namespace name from s) (st.get_event namespace name to s)

  pull_from : Reply SourceDef → Reply (List EventDef) → Response
  pull_from missing all = json_error 404
  pull_from (failed stage) all = json_error 500
  pull_from (reply src) all = respond (archive_of src) all

  -- func handleSourcePull; the archive is the list of its files
  unfoldable pub handle_source_pull : String → S → Response
  unfolding pull_from
  handle_source_pull name s =
      pull_from (st.get_source name s)
        (st.list_all_events (record { namespace = ""; status = ""; tags = [] }) s)
