-- ===== src/Registry/Server/Relay/Batch.antt =====
-- When a batch is accepted.
use event_spec.Prelude.{◌≡◌, ◌≢◌, List, [], ◌∷◌, some, Map}
use event_spec.Registry.Store.{Reply, reply}
use event_spec.Registry.Server.Api.{Store}
use event_spec.Registry.Server.State.{Server}
use event_spec.Registry.Server.Context.{EventContext, merge_event_context}
use event_spec.Registry.Server.Relay.{
  RelayCall, refused, RelayClient, BatchItem, Builder, item_call, send_call,
}

module _ {S P C : Type 0} (st : Store S) (builder : Builder P C) (client : RelayClient C) where
  -- Every item has a known type, and its call returns no error or ErrSampled when its turn comes.
  abbrev pub AllSent : EventContext → List BatchItem → C × Server S C → Type 0
  AllSent base [] state = Unit
  AllSent base (item ∷ items) state =
      (call : RelayCall) × (item_call item ≡ some call)
      × ((send_call st builder client call (merge_event_context base item.context) state).0
          ≢ refused)
      × AllSent base items
          (send_call st builder client call (merge_event_context base item.context) state).1

  -- The source has a client, made now or before, and with it the items are all sent.
  abbrev pub SourceSends : EventContext → List BatchItem → Server S C → Reply C × Map C → Type 0
  SourceSends ec items srv (r, clients) =
      (c : C) × (r ≡ reply c) × AllSent ec items (c, record srv { clients = clients })
