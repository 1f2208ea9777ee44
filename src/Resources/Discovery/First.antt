-- ===== src/Resources/Discovery/First.antt =====
-- A resource is mapped to the first version, in the order of the server, that serves it.
use cloud_operator.Prelude.{
  ◌≡◌, refl, sym, ◌∙◌, ap, subst, Bool, true, false, ◌&&◌, ◌||◌, Option, none, some, List, [], ◌∷◌,
  ◌++◌, if◌then◌else◌, ◌==◌, ==_iff, arith, Bool-cases, inl, inr, Option-cases,
}
use cloud_operator.GoMap.{lookup, insert, lookup-insert}
use cloud_operator.Bytes.{Bytes, bytes_comparable}
use cloud_operator.Convert.{GroupResource}
use cloud_operator.Resources.Discovery.{
  same_group_resource, group_resource_comparable, ResourceInfo, GroupVersion, ApiGroup, Served,
  serves, forbidden, not_found, fails, InfoMap, metrics_group, is_wanted, found, add_resources,
  missing_of, has_missing_resource, search_version, search_versions, behind_preferred, search_group,
  search_groups, built, searched, build_resource_api_group_map,
}

-- What one version of a group serves.
pub record Offer : Type 0 where
  pub group : Bytes
  pub version : Bytes
  pub names : List Bytes

abbrev pub has_name : List Bytes → Bytes → Bool
has_name [] name = false
has_name (n ∷ ns) name = n == name || has_name ns name

abbrev pub or_else : {A : Type 0} → Option A → Option A → Option A
or_else none o = o
or_else (some a) o = some a

module _ (resources : List GroupResource) where
  abbrev pub offered : GroupResource → Offer → Option ResourceInfo
  offered gr o =
      if is_wanted resources gr && (o.group == gr.group && has_name o.names gr.resource)
      then some (record { group = o.group; version = o.version })
      else none

  abbrev pub first_offered : GroupResource → List Offer → Option ResourceInfo
  first_offered gr [] = none
  first_offered gr (o ∷ os) = or_else (offered gr o) (first_offered gr os)

  lookup-add_resources :
      (gr : GroupResource) (group version : Bytes) (names : List Bytes) (m : InfoMap)
      → lookup gr (add_resources resources group version names m)
        ≡ or_else
            (lookup gr m)
            (offered gr (record { group = group; version = version; names = names }))
  unfolding add_resources found same_group_resource
  lookup-add_resources gr group version [] m = ground arith
  lookup-add_resources gr group version (name ∷ names) m =
      let gr' : GroupResource = record { group = group; resource = name } in
      let info : ResourceInfo = record { group = group; version = version } in
      ground (
        arith,
        lookup-add_resources gr group version names m,
        lookup-add_resources gr group version names (insert gr' info m),
        lookup-insert gr' gr info m,
        ==_iff gr' gr,
        ==_iff group gr.group,
        ==_iff name gr.resource,
      )

  -- If nothing of the group is missing, then a wanted resource of it is in the map.
  missing_of-found :
      (rs : List GroupResource) (gr : GroupResource) (m : InfoMap)
      → missing_of resources rs gr.group m ≡ false
      → is_wanted rs gr ≡ true
      → found gr m ≡ true
  unfolding missing_of is_wanted same_group_resource
  missing_of-found [] gr m h w = absurd (ground (arith, w))
  missing_of-found (r ∷ rs) gr m h w = ground (arith, missing_of-found rs gr m, h, w, ==_iff r gr)

  found-some :
      (gr : GroupResource) (m : InfoMap) (o : Option ResourceInfo)
      → found gr m ≡ true
      → or_else (lookup gr m) o ≡ lookup gr m
  unfolding found
  found-some gr m o h = ground (arith, h)

  first_offered-unwanted :
      (gr : GroupResource) (os : List Offer)
      → is_wanted resources gr ≡ false
      → first_offered gr os ≡ none
  first_offered-unwanted gr [] h = refl
  first_offered-unwanted gr (o ∷ os) h = ground (arith, h, first_offered-unwanted gr os h)

  first_offered-append :
      (gr : GroupResource) (xs ys : List Offer)
      → first_offered gr (xs ++ ys) ≡ or_else (first_offered gr xs) (first_offered gr ys)
  first_offered-append gr [] ys = refl
  first_offered-append gr (x ∷ xs) ys = ground (arith, first_offered-append gr xs ys)

  or_else_assoc :
      {A : Type 0} (a b c : Option A) → or_else (or_else a b) c ≡ or_else a (or_else b c)
  or_else_assoc none b c = refl
  or_else_assoc (some x) b c = refl

  module _ (served : Bytes → Served) (all : Bool) where
    abbrev offer_of : Bytes → Bytes → Served → List Offer → List Offer
    offer_of group version (serves names) os =
        record { group = group; version = version; names = names } ∷ os
    offer_of group version forbidden os = os
    offer_of group version not_found os = os
    offer_of group version fails os = os

    -- What a group's versions but the preferred one serve.
    abbrev other_offers : ApiGroup → List GroupVersion → List Offer
    other_offers g [] = []
    other_offers g (v ∷ vs) =
        if v.group_version == g.preferred_version.group_version
        then other_offers g vs
        else offer_of g.name v.version (served v.group_version) (other_offers g vs)

    abbrev offers_of : ApiGroup → Served → List Offer
    offers_of g (serves names) =
        record { group = g.name; version = g.preferred_version.version; names = names }
        ∷ (if all then other_offers g g.versions else [])
    offers_of g forbidden = []
    offers_of g not_found = []
    offers_of g fails = []

    -- Everything that the server serves, in its order: no search is cut short.
    abbrev pub offers : List ApiGroup → List Offer
    offers [] = []
    offers (g ∷ gs) =
        if g.name == metrics_group
        then offers gs
        else offers_of g (served g.preferred_version.group_version) ++ offers gs

    first_offered-other_group :
        (gr : GroupResource) (g : ApiGroup) (vs : List GroupVersion)
        → (g.name == gr.group) ≡ false
        → first_offered gr (other_offers g vs) ≡ none
    first_offered-other_group gr g [] h = refl
    first_offered-other_group gr g (v ∷ vs) h =
        ground (arith, h, first_offered-other_group gr g vs h)

    -- Where the search stops early, nothing behind would have been new.
    stops_early :
        (gr : GroupResource) (g : ApiGroup) (vs : List GroupVersion) (m : InfoMap)
        → has_missing_resource resources g.name m ≡ false
        → or_else (lookup gr m) (first_offered gr (other_offers g vs)) ≡ lookup gr m
    unfolding has_missing_resource
    stops_early gr g vs m h = elim (Bool-cases (g.name == gr.group)) [
      | inl same ↦ elim (Bool-cases (is_wanted resources gr)) [
        | inl wanted ↦
            let e : g.name ≡ gr.group = (==_iff g.name gr.group).0 same in
            found-some gr m _ (
              missing_of-found resources gr m
                (sym (ap (λ x. missing_of resources resources x m) e) ∙ h) wanted)
        | inr unwanted ↦ ground (arith, first_offered-unwanted gr (other_offers g vs) unwanted)
      ]
      | inr differ ↦ ground (arith, first_offered-other_group gr g vs differ)
    ]

    -- A search whose result extends the map by what `os` offers.
    abbrev Extends : List Offer → (InfoMap → Option InfoMap) → Type 0
    Extends os search =
        (gr : GroupResource) (m m' : InfoMap)
        → search m ≡ some m'
        → lookup gr m' ≡ or_else (lookup gr m) (first_offered gr os)

    search_version-Extends :
        (g : ApiGroup) (version : Bytes) (s : Served) (rest : InfoMap → Option InfoMap)
        (os : List Offer)
        → Extends os rest
        → Extends
            (offer_of g.name version s os)
            (search_version resources served all g.name version s rest)
    unfolding search_version
    search_version-Extends g version (serves names) rest os k gr m m' h =
        let added = add_resources resources g.name version names m in
        k gr added m' h
        ∙ ap (λ o. or_else o (first_offered gr os)) (lookup-add_resources gr g.name version names m)
        ∙ or_else_assoc (lookup gr m) _ (first_offered gr os)
    search_version-Extends g version forbidden rest os k gr m m' h = k gr m m' h
    search_version-Extends g version not_found rest os k gr m m' h = k gr m m' h
    search_version-Extends g version fails rest os k gr m m' h = absurd (ground (arith, h))

    search_versions-Extends :
        (g : ApiGroup) (vs : List GroupVersion)
        → Extends (other_offers g vs) (search_versions resources served all g vs)
    unfolding search_versions
    search_versions-Extends g [] gr m m' h = ground (arith, h)
    search_versions-Extends g (v ∷ vs) gr m m' h =
        elim (Bool-cases (v.group_version == g.preferred_version.group_version)) [
          | inl preferred ↦ ground (arith, preferred, h, search_versions-Extends g vs gr m m')
          | inr other ↦ elim (Bool-cases (has_missing_resource resources g.name m)) [
            | inl missing ↦
                subst (λ os. lookup gr m' ≡ or_else (lookup gr m) (first_offered gr os))
                  (ground (arith, other))
                  (search_version-Extends g v.version (served v.group_version)
                    (search_versions resources served all g vs) (other_offers g vs)
                    (search_versions-Extends g vs) gr m m' (ground (arith, other, missing, h)))
            | inr complete ↦
                ground (arith, other, complete, h, stops_early gr g (v ∷ vs) m complete)
          ]
        ]

    behind_preferred-Extends :
        (g : ApiGroup)
        → Extends
            (if all then other_offers g g.versions else [])
            (behind_preferred resources served all g)
    unfolding behind_preferred
    behind_preferred-Extends g gr m m' h = elim (Bool-cases all) [
      | inl whole ↦ ground (arith, whole, h, search_versions-Extends g g.versions gr m m')
      | inr partly ↦ ground (arith, partly, h)
    ]

    after-Extends :
        (xs ys : List Offer) (first rest : InfoMap → Option InfoMap)
        → Extends xs first
        → Extends ys rest
        → Extends (xs ++ ys) (λ m. elim (first m) [ none ↦ none | some m' ↦ rest m' ])
    after-Extends xs ys first rest f k gr m m' h = elim (Option-cases (first m)) [
      | inl n ↦ absurd (ground (arith, n, h))
      | inr (a, is) ↦
          k gr a m' (ground (arith, is, h))
          ∙ ap (λ o. or_else o (first_offered gr ys)) (f gr m a is)
          ∙ or_else_assoc (lookup gr m) (first_offered gr xs) (first_offered gr ys)
          ∙ ap (or_else (lookup gr m)) (sym (first_offered-append gr xs ys))
    ]

    search_group-Extends :
        (g : ApiGroup) (s : Served) (rest : InfoMap → Option InfoMap) (os : List Offer)
        → Extends os rest
        → Extends (offers_of g s ++ os) (search_group resources served all g s rest)
    unfolding search_group
    search_group-Extends g (serves names) rest os k gr m m' h =
        let more = if all then other_offers g g.versions else [] in
        let added = add_resources resources g.name g.preferred_version.version names m in
        after-Extends more os (behind_preferred resources served all g) rest
          (behind_preferred-Extends g) k gr added m' h
        ∙ ap (λ o. or_else o (first_offered gr (more ++ os)))
            (lookup-add_resources gr g.name g.preferred_version.version names m)
        ∙ or_else_assoc (lookup gr m) _ (first_offered gr (more ++ os))
    search_group-Extends g forbidden rest os k gr m m' h = k gr m m' h
    search_group-Extends g not_found rest os k gr m m' h = absurd (ground (arith, h))
    search_group-Extends g fails rest os k gr m m' h = absurd (ground (arith, h))

    search_groups-Extends :
        (gs : List ApiGroup) → Extends (offers gs) (search_groups resources served all gs)
    unfolding search_groups
    search_groups-Extends [] gr m m' h = ground (arith, h)
    search_groups-Extends (g ∷ gs) gr m m' h = elim (Bool-cases (g.name == metrics_group)) [
      | inl skipped ↦ ground (arith, skipped, h, search_groups-Extends gs gr m m')
      | inr searched ↦
          subst (λ os. lookup gr m' ≡ or_else (lookup gr m) (first_offered gr os))
            (ground (arith, searched))
            (search_group-Extends g (served g.preferred_version.group_version)
              (search_groups resources served all gs) (offers gs) (search_groups-Extends gs) gr m m'
              (ground (arith, searched, h)))
    ]

    searched-built :
        (o : Option InfoMap) (m : InfoMap) → searched resources served all o ≡ built m → o ≡ some m
    unfolding searched
    searched-built none m h = absurd (ground (arith, h))
    searched-built (some x) m h = ground (arith, h)

    -- If the map of the resources is built, then it has a resource exactly if that is wanted and
    -- served, and maps it to the first version that serves it: of its group the preferred one, then,
    -- if all versions are searched, the others in the order of the server. That the search stops as
    -- soon as nothing of a group is missing changes nothing.
    pub build_resource_api_group_map-first :
        (groups : List ApiGroup) (m : InfoMap) (gr : GroupResource)
        → build_resource_api_group_map resources served all (some groups) ≡ built m
        → lookup gr m ≡ first_offered gr (offers groups)
    unfolding build_resource_api_group_map lookup
    build_resource_api_group_map-first groups m gr h =
        search_groups-Extends groups gr [] m
          (searched-built (search_groups resources served all groups []) m h)
