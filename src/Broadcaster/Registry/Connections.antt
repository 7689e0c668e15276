-- ===== src/Broadcaster/Registry/Connections.antt =====
-- Which connections a registry knows after any run of arrivals and departures.
use airport_inspection_platf.Prelude.Map
use airport_inspection_platf.Prelude.Map.{get-delete, get-set, set}
use airport_inspection_platf.Broadcaster.Registry.{
  BroadcastClient, ChannelRegistry, add_client, delete_client, has_client, is_client, members,
  subscribe, unsubscribe, without,
}
use airport_inspection_platf.Prelude.{
  Bool, Bool-cases, List, Option-cases, String, [], ap, arith, eq_iff, false, if_ap, if_false,
  if_true, if◌then◌else◌, inl, inr, none, or_else, refl, some, str_eq, subst, sym, true, ◌&&◌, ◌++◌,
  ◌∙◌, ◌∷◌, ◌≡◌,
}

pub data Change : Type 0 where
  joined left : String → BroadcastClient → Change

abbrev pub apply : Change → ChannelRegistry → ChannelRegistry
apply (joined airport_id c) r = subscribe airport_id c r
apply (left airport_id c) r = unsubscribe airport_id c r

abbrev pub apply_all : List Change → ChannelRegistry → ChannelRegistry
apply_all [] r = r
apply_all (c ∷ cs) r = apply_all cs (apply c r)

-- Whether the last change of the connection at the airport was its arrival, if there was any.
abbrev pub connected : String → String → Bool → List Change → Bool
connected airport_id id known [] = known
connected airport_id id known (joined a c ∷ cs) =
    connected airport_id id (if str_eq a airport_id && is_client id c then true else known) cs
connected airport_id id known (left a c ∷ cs) =
    connected airport_id id (if str_eq a airport_id && is_client id c then false else known) cs

has_client-append :
    (id : String) (cs : List BroadcastClient) (c : BroadcastClient)
    → has_client id (cs ++ c ∷ []) ≡ (if is_client id c then true else has_client id cs)
has_client-append id [] c = refl
has_client-append id (d ∷ cs) c = ground (arith, has_client-append id cs c)

known :
    (id : String) (c : BroadcastClient) (cs : List BroadcastClient)
    → has_client c.connection_id cs ≡ true
    → is_client id c ≡ true
    → has_client id cs ≡ true
known id c cs t same = subst (λ i. has_client i cs ≡ true) ((eq_iff c.connection_id id).0 same) t

has_client-add_client :
    (id : String) (c : BroadcastClient) (cs : List BroadcastClient)
    → has_client id (add_client c cs) ≡ (if is_client id c then true else has_client id cs)
has_client-add_client id c cs = elim (Bool-cases (has_client c.connection_id cs)) [
  | inl t ↦ ap (has_client id) (if_true _ _ _ t) ∙ elim (Bool-cases (is_client id c)) [
    | inl same ↦ known id c cs t same ∙ sym (if_true _ _ _ same)
    | inr other ↦ sym (if_false _ _ _ other)
  ]
  | inr t ↦ ap (has_client id) (if_false _ _ _ t) ∙ has_client-append id cs c
]

has_client-delete_client :
    (id : String) (c : BroadcastClient) (cs : List BroadcastClient)
    → has_client id (delete_client c cs) ≡ (if is_client id c then false else has_client id cs)
has_client-delete_client id c [] = ground arith
has_client-delete_client id c (d ∷ cs) = ground (
  arith,
  has_client-delete_client id c cs,
  eq_iff c.connection_id id,
  eq_iff d.connection_id id,
  eq_iff d.connection_id c.connection_id,
)

members-subscribe :
    (airport_id a : String) (c : BroadcastClient) (r : ChannelRegistry)
    → members airport_id (subscribe a c r)
      ≡ (if str_eq a airport_id then add_client c (members a r) else members airport_id r)
unfolding members subscribe
members-subscribe airport_id a c r =
    ap (λ o. or_else o []) (get-set airport_id a _ r.clients)
    ∙ if_ap (λ o. or_else o []) (str_eq a airport_id) (some (add_client c (members a r)))
        (Map.get airport_id r.clients)

members-without :
    (airport_id a : String) (set : List BroadcastClient) (r : ChannelRegistry)
    → members airport_id (without a set r)
      ≡ (if str_eq a airport_id then set else members airport_id r)
unfolding members without
members-without airport_id a [] r =
    ap (λ o. or_else o []) (get-delete airport_id a r.clients)
    ∙ if_ap (λ o. or_else o []) (str_eq a airport_id) none (Map.get airport_id r.clients)
members-without airport_id a (c ∷ cs) r =
    ap (λ o. or_else o []) (get-set airport_id a (c ∷ cs) r.clients)
    ∙ if_ap (λ o. or_else o []) (str_eq a airport_id) (some (c ∷ cs)) (Map.get airport_id r.clients)

-- where the airport has no set, there is nothing to delete
members-absent :
    (airport_id a : String) (c : BroadcastClient) (r : ChannelRegistry)
    → Map.get a r.clients ≡ none
    → members airport_id r
      ≡ (if str_eq a airport_id then delete_client c (members a r) else members airport_id r)
unfolding members
members-absent airport_id a c r e = elim (Bool-cases (str_eq a airport_id)) [
  | inl same ↦
      ap (λ k. members k r) (sym ((eq_iff a airport_id).0 same))
      ∙ ap (λ o. or_else o []) e
      ∙ sym (ap (λ o. delete_client c (or_else o [])) e)
      ∙ sym (if_true _ _ _ same)
  | inr other ↦ sym (if_false _ _ _ other)
]

unsubscribe-absent :
    (a : String) (c : BroadcastClient) (r : ChannelRegistry)
    → Map.get a r.clients ≡ none
    → unsubscribe a c r ≡ r
unfolding unsubscribe
unsubscribe-absent a c r e = rw (e, unsubscribe) refl

unsubscribe-present :
    (a : String) (c : BroadcastClient) (r : ChannelRegistry) (set : List BroadcastClient)
    → Map.get a r.clients ≡ some set
    → unsubscribe a c r ≡ without a (delete_client c set) r
unfolding unsubscribe
unsubscribe-present a c r set e = rw (e, unsubscribe) refl

members-unsubscribe :
    (airport_id a : String) (c : BroadcastClient) (r : ChannelRegistry)
    → members airport_id (unsubscribe a c r)
      ≡ (if str_eq a airport_id then delete_client c (members a r) else members airport_id r)
unfolding members unsubscribe
members-unsubscribe airport_id a c r = elim (Option-cases (Map.get a r.clients)) [
  | inl absent ↦
      ap (members airport_id) (unsubscribe-absent a c r absent)
      ∙ members-absent airport_id a c r absent
  | inr (set, e) ↦
      ap (members airport_id) (unsubscribe-present a c r set e)
      ∙ members-without airport_id a (delete_client c set) r
      ∙ sym (
          ap
            (λ o.
              if str_eq a airport_id then delete_client c (or_else o []) else members airport_id r)
            e)
]

-- at the airport of the change, the registry's clients are those of that airport
members-same :
    (airport_id a : String) (r : ChannelRegistry)
    → str_eq a airport_id ≡ true
    → members a r ≡ members airport_id r
members-same airport_id a r same = ap (λ k. members k r) ((eq_iff a airport_id).0 same)

has_client-apply :
    (airport_id id : String) (c : Change) (r : ChannelRegistry)
    → has_client id (members airport_id (apply c r))
      ≡ connected airport_id id (has_client id (members airport_id r)) (c ∷ [])
has_client-apply airport_id id (joined a c) r =
    ap (has_client id) (members-subscribe airport_id a c r)
    ∙ elim (Bool-cases (str_eq a airport_id)) [
      | inl same ↦ rw same (
          has_client-add_client id c (members a r)
          ∙ ap (λ m. if is_client id c then true else has_client id m)
              (members-same airport_id a r same))
      | inr other ↦ rw other refl
    ]
has_client-apply airport_id id (left a c) r =
    ap (has_client id) (members-unsubscribe airport_id a c r)
    ∙ elim (Bool-cases (str_eq a airport_id)) [
      | inl same ↦ rw same (
          has_client-delete_client id c (members a r)
          ∙ ap (λ m. if is_client id c then false else has_client id m)
              (members-same airport_id a r same))
      | inr other ↦ rw other refl
    ]

-- After any sequence of subscribe and unsubscribe calls, from any registry, the registry holds a
-- connection at an airport exactly if the last call for that connection and airport was a subscribe, or
-- there was none and it was held before; calls for other airports and connections change nothing.
pub has_client-apply_all :
    (airport_id id : String) (cs : List Change) (r : ChannelRegistry)
    → has_client id (members airport_id (apply_all cs r))
      ≡ connected airport_id id (has_client id (members airport_id r)) cs
has_client-apply_all airport_id id [] r = refl
has_client-apply_all airport_id id (joined a c ∷ cs) r =
    has_client-apply_all airport_id id cs (subscribe a c r)
    ∙ ap (λ b. connected airport_id id b cs) (has_client-apply airport_id id (joined a c) r)
has_client-apply_all airport_id id (left a c ∷ cs) r =
    has_client-apply_all airport_id id cs (unsubscribe a c r)
    ∙ ap (λ b. connected airport_id id b cs) (has_client-apply airport_id id (left a c) r)
