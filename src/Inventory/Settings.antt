-- ===== src/Inventory/Settings.antt =====
-- What a host gets from its own entry, its group and the top level of the inventory.
use glidesh.Common.{
  String, ◌≡◌, refl, sym, ◌∙◌, ap, true, false, Bool-cases, inl, inr, ◌⊎◌, Option, none, some,
  or_else, unwrap_or, if◌then◌else◌, List, [], ◌∷◌, map, contains, str_eq, eq_iff, arith,
}
use glidesh.Common.Dict.{Dict, get, insert, extend, get-insert}
use glidesh.RunAs.{resolve}
use glidesh.RunAs.Levels.{effective, first_user, first_method, resolve-merge_over}
use glidesh.Tags.Merge.{Distinct}
use glidesh.Inventory.{Host, Group, Inventory, group_vars, group_run_as, merged_vars, resolve_host}

abbrev pub keys : Dict String → List String
keys m = map (λ e. e.0) m

get-absent : (m : Dict String) (k : String) → contains (keys m) k ≡ false → get m k ≡ none
unfolding get
get-absent [] k h = refl
get-absent ((j, v) ∷ m) k h = ground (arith, get-absent m k)

get-extend :
    (m more : Dict String) (k : String)
    → Distinct (keys more)
    → get (extend m more) k ≡ or_else (get more k) (get m k)
unfolding get extend
get-extend m [] k h = refl
get-extend m ((j, v) ∷ more) k h =
    get-extend (insert m j v) more k h.1 ∙ over m j v more k h.0 (Bool-cases (str_eq j k))
  where
    over :
        (m : Dict String) (j v : String) (more : Dict String) (k : String)
        → contains (keys more) j ≡ false
        → ((str_eq j k ≡ true) ⊎ (str_eq j k ≡ false))
        → or_else (get more k) (get (insert m j v) k)
          ≡ or_else (if str_eq j k then some v else get more k) (get m k)
    over m j v more k new (inl e) =
        rw (get-insert m j k v, e, sym ((eq_iff j k).0 e), get-absent more j new) refl
    over m j v more k new (inr e) = rw (get-insert m j k v, e) refl

-- A variable's value is that of the host, or else of its group, or else of the top level; the
-- login user is the host's, or else the variable `deploy-user`, or else `root`; and escalation
-- is decided by the first of host, group and top level that sets it. Each of the host's and the
-- group's maps has a key once.
pub resolve_host-levels :
    (inv : Inventory) (host : Host) (group : Option Group)
    → Distinct (keys host.vars)
    → Distinct (keys (group_vars group))
    → ((k : String)
        → get (resolve_host inv host group).vars k
          ≡ or_else (get host.vars k) (or_else (get (group_vars group) k) (get inv.global_vars k)))
      × ((resolve_host inv host group).user
          ≡ unwrap_or
              (or_else host.user (get (resolve_host inv host group).vars "deploy-user"))
              "root")
      × ((password : Option String)
          → resolve (resolve_host inv host group).run_as password
            ≡ effective
                (first_user (host.run_as ∷ group_run_as group ∷ inv.run_as ∷ []))
                (first_method (host.run_as ∷ group_run_as group ∷ inv.run_as ∷ []))
                password)
unfolding resolve_host merged_vars
resolve_host-levels inv host group h g = (
  λ k.
      get-extend (extend inv.global_vars (group_vars group)) host.vars k h
      ∙ ap (λ o. or_else (get host.vars k) o) (get-extend inv.global_vars (group_vars group) k g),
  refl,
  λ password. resolve-merge_over host.run_as (group_run_as group ∷ inv.run_as ∷ []) password,
)
