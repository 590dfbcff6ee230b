-- ===== src/Discovery/Announcing.antt =====
-- What `InitAnnouncer` of discovery/init.go leaves in the container.
use nacelle.Prelude.{
  String, ◌≡◌, refl, sym, ◌≢◌, ◌⊎◌, inl, inr, none, some, List, [], ◌∷◌, arith, Option-cases, pos,
  string_comparable, nat_comparable, int_comparable, bytes_comparable, str_iff,
}
use mathlib.Core.Path.{subst}
use nacelle.Error.{Outcome, Outcome-cases, Status, ok, done}
use nacelle.Key.{Key, text, same_key, same_key_iff}
use nacelle.Reflect.{Runtime}
use nacelle.Service.Defs.{ServiceContainer}
use nacelle.Service.Store.{service_at, set_lem, Fits}
use nacelle.Discovery.Client.{DiscoveryConfig, make_client}
use nacelle.Discovery.Init.{Reception, Announcement, Action, registers, announce, init_announcer}

-- The container has got the client as a service, and is the same otherwise; and the client has
-- registered the name.
abbrev pub Announced :
    {Value : Type 0}
    → ServiceContainer Value
    → ServiceContainer Value
    → Value
    → List Action
    → String
    → Type 0
Announced before after client actions name =
    (service_at before (text "reception-client") ≡ none)
    × (service_at after (text "reception-client") ≡ some client)
    × ((j : Key) → text "reception-client" ≢ j → service_at after j ≡ service_at before j)
    × ((service : Announcement) × (service.name ≡ name) × (actions ≡ registers service ∷ []))

module _ (R : Runtime) {State : Type 0} (reception : Reception (R.Value) State)
    (fetched : Outcome DiscoveryConfig) (container : ServiceContainer (R.Value)) where
  open R use {Value}

  -- The outcome of the initializer, as a predicate on what it returns.
  abbrev pub AnnouncerResult : String → (ServiceContainer Value × List Action) × Status → Type 0
  AnnouncerResult name ((container', actions), result) =
      ((result ≡ done)
        × ((client : Value) × (make_client R reception.dial fetched container ≡ ok client)
            × Announced container container' client actions name))
      ⊎ ((result ≢ done)
          × (container' ≡ container)
          × ((actions ≡ [])
              ⊎ ((v : Value) × (service_at container (text "reception-client") ≡ some v))))

  fits : (client : Value) → Fits R (text "reception-client") client
  unfolding same_key
  fits client e = ground (
    arith,
    e,
    same_key_iff (text "reception-client") (text "logger"),
    str_iff "reception-client" "logger",
  )

  announce_lem :
      (client : Value) (service : Announcement)
      → make_client R reception.dial fetched container ≡ ok client
      → AnnouncerResult service.name (announce R reception fetched container client service)
  announce_lem client service made = elim (Option-cases (reception.register service client)) [
    | inr (e, failed) ↦ inr (ground arith, ground arith, inl (ground arith))
    | inl registered ↦ elim (set_lem R container (text "reception-client") client) [
      | inl (accepted, _, free, own, others) ↦ inl (
        ground arith,
        (
          client,
          made,
          (
            free,
            ground (arith, own),
            λ j apart. ground (arith, others j apart),
            (service, refl, ground arith),
          ),
        ),
      )
      | inr (refused, same, reason) ↦ inr (
        ground arith,
        ground arith,
        inr (elim reason [ inl unfit ↦ absurd (unfit (fits client)) | inr taken ↦ taken ]),
      )
    ]
  ]

  init_announcer-announce :
      (name : String) (client : Value) (id : String)
      → make_client R reception.dial fetched container ≡ ok client
      → reception.new_v4 ≡ ok id
      → init_announcer R reception fetched container name
        ≡ announce R reception fetched container client
            (record { id = id; name = name; address = ""; port = pos 0 })
  unfolding init_announcer
  init_announcer-announce name client id made drawn = ground arith

  -- If `InitAnnouncer` returns nil, then the client of the configured backend has registered the
  -- name, and is now the service "reception-client", which there was none of; the other services
  -- are as they were. If it returns an error or panics, the container is as it was, and nothing was
  -- registered unless there is a service "reception-client" already.
  pub init_announcer_lem :
      (name : String) → AnnouncerResult name (init_announcer R reception fetched container name)
  unfolding init_announcer
  init_announcer_lem name = elim (Outcome-cases (make_client R reception.dial fetched container)) [
    | inr (inl (e, failed)) ↦ inr (ground arith, ground arith, inl (ground arith))
    | inr (inr (p, failed)) ↦ inr (ground arith, ground arith, inl (ground arith))
    | inl (client, made) ↦ elim (Outcome-cases reception.new_v4) [
      | inr (inl (e, failed)) ↦ inr (ground arith, ground arith, inl (ground arith))
      | inr (inr (p, failed)) ↦ inr (ground arith, ground arith, inl (ground arith))
      | inl (id, drawn) ↦
          subst (AnnouncerResult name) (sym (init_announcer-announce name client id made drawn))
            (announce_lem client _ made)
    ]
  ]
