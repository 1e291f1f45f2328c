-- ===== src/Registry/Server/Entities.antt =====
-- The handlers of sources and destinations, registry/server/handlers_sources.go and
-- registry/server/handlers_destinations.go.
use event_spec.Prelude.{◌||◌, Option, none, some, String, ◌==◌, if◌then◌else◌}
use event_spec.Spec.Workspace.{SourceDef, DestinationDef}
use event_spec.Registry.Server.Api.{
  Store, Body, a_source, some_sources, a_destination, some_destinations, Response, json_ok,
  json_error, header_only, respond, respond_found, answer_write, answer_change,
}

-- the response to a creation, with the entity
unfoldable pub created : Body → Response
created body = record { status = 201; body = body }

module _ {S : Type 0} (st : Store S) where
  -- func handleListSources
  unfoldable pub handle_list_sources : S → Response
  handle_list_sources s = respond some_sources (st.list_sources s)

  -- func handleGetSourceAdmin
  unfoldable pub handle_get_source : String → S → Response
  handle_get_source name s = respond_found a_source (st.get_source name s)

  -- func handleCreateSource
  unfoldable pub handle_create_source : Option SourceDef → String → S → Response × S
  handle_create_source none user_id s = (json_error 400, s)
  handle_create_source (some src) user_id s =
      if (src.name == "") || (src.language == "")
      then (json_error 400, s)
      else answer_write (created (a_source src)) (st.create_source src user_id s)

  -- func handleUpdateSource
  unfoldable pub handle_update_source : String → Option SourceDef → String → S → Response × S
  handle_update_source name none user_id s = (json_error 400, s)
  handle_update_source name (some src) user_id s =
      let named = record src { name = name } in
      if src.language == ""
      then (json_error 400, s)
      else answer_change (json_ok (a_source named)) (st.update_source named user_id s)

  -- func handleDeleteSource
  unfoldable pub handle_delete_source : String → String → S → Response × S
  handle_delete_source name user_id s =
      answer_change (header_only 204) (st.delete_source name user_id s)

  -- func handleListDestinations
  unfoldable pub handle_list_destinations : S → Response
  handle_list_destinations s = respond some_destinations (st.list_destinations_full s)

  -- func handleGetDestination
  unfoldable pub handle_get_destination : String → S → Response
  handle_get_destination name s = respond_found a_destination (st.get_destination name s)

  -- func handleCreateDestination
  unfoldable pub handle_create_destination : Option DestinationDef → String → S → Response × S
  handle_create_destination none user_id s = (json_error 400, s)
  handle_create_destination (some dest) user_id s =
      if (dest.name == "") || (dest.provider == "")
      then (json_error 400, s)
      else answer_write (created (a_destination dest)) (st.create_destination dest user_id s)

  -- func handleUpdateDestination
  unfoldable pub handle_update_destination :
      String → Option DestinationDef → String → S → Response × S
  handle_update_destination name none user_id s = (json_error 400, s)
  handle_update_destination name (some dest) user_id s =
      let named = record dest { name = name } in
      if dest.provider == ""
      then (json_error 400, s)
      else answer_change (json_ok (a_destination named)) (st.update_destination named user_id s)

  -- func handleDeleteDestination
  unfoldable pub handle_delete_destination : String → String → S → Response × S
  handle_delete_destination name user_id s =
      answer_change (header_only 204) (st.delete_destination name user_id s)
