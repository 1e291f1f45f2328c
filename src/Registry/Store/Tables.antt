-- ===== src/Registry/Store/Tables.antt =====
-- The methods on sources and destinations of registry/server/store_sql.go, on the whole database.
-- The order that `ORDER BY name` gives, the engine's collation, is an argument.
use event_spec.Prelude.{List, String, map, if◌then◌else◌}
use event_spec.Spec.Workspace.{SourceDef, DestinationDef}
use event_spec.Registry.Store.{Codec, Engine, querying, Reply, reply, failed, EntityRow, Database}
use event_spec.Registry.Store.Entities.{
  Written, get_entity, parsed_rows, create_entity, update_entity, delete_entity, source_entity,
  destination_entity,
}

module _ {Doc : Type 0} where
  unfoldable pub to_sources : Database Doc → Written Doc → Reply Unit × Database Doc
  to_sources db w = (w.answer, record db { sources = w.rows; audit_log = w.log })

  unfoldable pub to_destinations : Database Doc → Written Doc → Reply Unit × Database Doc
  to_destinations db w = (w.answer, record db { destinations = w.rows; audit_log = w.log })

module _ {Doc : Type 0} (yaml : Codec SourceDef Doc) where
  -- func (st *sqlStore) GetSource
  unfoldable pub get_source : Engine → String → Database Doc → Reply SourceDef
  get_source engine name db = get_entity source_entity yaml engine name db.sources

  -- func (st *sqlStore) ListSources
  unfoldable pub list_sources :
      (List (EntityRow Doc) → List (EntityRow Doc)) → Engine → Database Doc → Reply (List SourceDef)
  list_sources by_name engine db =
      if engine.on_query
      then reply (parsed_rows source_entity yaml (by_name db.sources))
      else failed querying

  -- func (st *sqlStore) CreateSource
  unfoldable pub create_source :
      Engine → SourceDef → String → Database Doc → Reply Unit × Database Doc
  create_source engine src user_id db =
      to_sources db (create_entity source_entity yaml engine src user_id db.sources db.audit_log)

  -- func (st *sqlStore) UpdateSource
  unfoldable pub update_source :
      Engine → SourceDef → String → Database Doc → Reply Unit × Database Doc
  update_source engine src user_id db =
      to_sources db (update_entity source_entity yaml engine src user_id db.sources db.audit_log)

  -- func (st *sqlStore) DeleteSource
  unfoldable pub delete_source : Engine → String → String → Database Doc → Reply Unit × Database Doc
  delete_source engine name user_id db =
      to_sources db (delete_entity source_entity yaml engine name user_id db.sources db.audit_log)

module _ {Doc : Type 0} (yaml : Codec DestinationDef Doc) where
  -- func (st *sqlStore) GetDestination
  unfoldable pub get_destination : Engine → String → Database Doc → Reply DestinationDef
  get_destination engine name db = get_entity destination_entity yaml engine name db.destinations

  -- func (st *sqlStore) ListDestinationsFull
  unfoldable pub list_destinations_full :
      (List (EntityRow Doc) → List (EntityRow Doc))
      → Engine
      → Database Doc
      → Reply (List DestinationDef)
  list_destinations_full by_name engine db =
      if engine.on_query
      then reply (parsed_rows destination_entity yaml (by_name db.destinations))
      else failed querying

  -- func (st *sqlStore) CreateDestination
  unfoldable pub create_destination :
      Engine → DestinationDef → String → Database Doc → Reply Unit × Database Doc
  create_destination engine dest user_id db =
      to_destinations db
        (create_entity destination_entity yaml engine dest user_id db.destinations db.audit_log)

  -- func (st *sqlStore) UpdateDestination
  unfoldable pub update_destination :
      Engine → DestinationDef → String → Database Doc → Reply Unit × Database Doc
  update_destination engine dest user_id db =
      to_destinations db
        (update_entity destination_entity yaml engine dest user_id db.destinations db.audit_log)

  -- func (st *sqlStore) DeleteDestination
  unfoldable pub delete_destination :
      Engine → String → String → Database Doc → Reply Unit × Database Doc
  delete_destination engine name user_id db =
      to_destinations db
        (delete_entity destination_entity yaml engine name user_id db.destinations db.audit_log)

-- func (st *sqlStore) ListDestinations
unfoldable pub list_destinations :
    {Doc : Type 0}
    → (List (EntityRow Doc) → List (EntityRow Doc))
    → Engine
    → Database Doc
    → Reply (List String)
list_destinations by_name engine db =
    if engine.on_query
    then reply (map (λ row. row.name) (by_name db.destinations))
    else failed querying
