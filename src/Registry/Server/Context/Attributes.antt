-- ===== src/Registry/Server/Context/Attributes.antt =====
-- What the contexts of the relay hold.
use event_spec.Prelude.{
  ◌≡◌, refl, ap, ◌∙◌, not, ◌&&◌, [], ◌∷◌, Option, none, some, String, Map, lookup, insert_all,
  or_else, IsMap, lookup-insert, lookup-insert_all, lookup-none_iff, arith, eq_iff, ◌==◌,
  if◌then◌else◌,
}
use event_spec.Prelude.Values.{Value}
use event_spec.Registry.Server.Context.{
  EventContext, Origin, merged_attributes, merge_event_context, fill, enrich_from_request,
}

or_else-none : {A : Type 0} (o : Option A) → or_else o none ≡ o
or_else-none none = refl
or_else-none (some a) = refl

lookup-merged_attributes :
    (k : String) (base over : Map Value)
    → IsMap base
    → IsMap over
    → lookup k (merged_attributes base over) ≡ or_else (lookup k over) (lookup k base)
unfolding merged_attributes lookup
lookup-merged_attributes k base [] h g = refl
lookup-merged_attributes k base (a ∷ over) h g =
    lookup-insert_all k (a ∷ over) (insert_all base []) g
    ∙ ap (or_else (lookup k (a ∷ over)))
        (lookup-insert_all k base [] h ∙ or_else-none (lookup k base))

-- An attribute of a merged context is the item's, and the batch's where the item has none, when the
-- attributes of both have different keys.
pub lookup-merge_event_context :
    (base over : EventContext) (k : String)
    → IsMap base.attributes
    → IsMap over.attributes
    → lookup k (merge_event_context base over).attributes
      ≡ or_else (lookup k over.attributes) (lookup k base.attributes)
unfolding merge_event_context
lookup-merge_event_context base over k h g =
    lookup-merged_attributes k base.attributes over.attributes h g

lookup-fill :
    (name k : String) (value : String) (m : Map Value)
    → lookup k (fill name value m)
      ≡ or_else
          (lookup k m)
          (if (name == k) && not (value == "") then some (Value.string value) else none)
unfolding fill
lookup-fill name k value m =
    ground (arith, lookup-insert name k (Value.string value) m, lookup-none_iff k m, eq_iff name k)

-- what the server fills in for an attribute
abbrev pub seen : Origin → String → Option Value
seen origin k =
    or_else
      (if ("user_agent" == k) && not (origin.user_agent == "")
        then some (Value.string origin.user_agent)
        else none)
      (if ("ip_address" == k) && not (origin.client_ip == "")
        then some (Value.string origin.client_ip)
        else none)

or_else_assoc : (a b c : Option Value) → or_else (or_else a b) c ≡ or_else a (or_else b c)
or_else_assoc none b c = refl
or_else_assoc (some v) b c = refl

-- An attribute of an enriched context is the one that the caller has sent, whatever the server has
-- seen; where the caller has sent none, the attributes "user_agent" and "ip_address" are those that
-- the server has seen, if they are not empty, and any other attribute stays absent.
pub lookup-enrich_from_request :
    (ec : EventContext) (origin : Origin) (k : String)
    → lookup k (enrich_from_request ec origin).attributes
      ≡ or_else (lookup k ec.attributes) (seen origin k)
unfolding enrich_from_request
lookup-enrich_from_request ec origin k =
    let agent =
      if ("user_agent" == k) && not (origin.user_agent == "")
      then some (Value.string origin.user_agent)
      else none in
    let ip =
      if ("ip_address" == k) && not (origin.client_ip == "")
      then some (Value.string origin.client_ip)
      else none in
    lookup-fill "ip_address" k origin.client_ip (fill "user_agent" origin.user_agent ec.attributes)
    ∙ (ap (λ o. or_else o ip) (lookup-fill "user_agent" k origin.user_agent ec.attributes)
        ∙ or_else_assoc (lookup k ec.attributes) agent ip)
