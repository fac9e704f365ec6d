-- ===== src/Inventory/Examples.antt =====
-- A group of two hosts, one with its own plan, and a host outside.
use glidesh.Common.{
  String, ◌≡◌, refl, Bool, Option, none, some, or_else, unwrap_or, [], ◌∷◌, map, contains, sum_of,
  str_eq,
}
use glidesh.Common.Dict.{get}
use glidesh.RunAs.{RunAsUser, disabled, inherit, resolve}
use glidesh.RunAs.Levels.{effective, first_user, first_method}
use glidesh.Condition.Lexer.{read_until}
use glidesh.Tags.{parts}
use glidesh.Tags.Merge.{Distinct}
use glidesh.Inventory.{Host, Group, Inventory, resolve_host, resolve_targets, resolve_group_plans}
use glidesh.Inventory.Targets.{names, named_by, resolve_targets-list}
use glidesh.Inventory.Settings.{resolve_host-levels}
use glidesh.Inventory.Plans.{runs_of, expected, resolve_group_plans-runs}

abbrev host : String → Option String → Host
host name plan = record {
  name = name;
  address = name;
  user = none;
  port = none;
  vars = ("size", "2") ∷ [];
  plan = plan;
  jump = none;
  run_as = inherit;
}

abbrev web : Group
web = record {
  name = "web";
  hosts = host "web-1" none ∷ host "web-2" (some "special") ∷ [];
  vars = ("size", "1") ∷ ("deploy-user", "deploy") ∷ [];
  plan = some "web";
  jump = none;
  run_as = record { user = some disabled; method = none };
}

abbrev site : Inventory
site = record {
  groups = web ∷ [];
  ungrouped_hosts = host "db" none ∷ [];
  global_vars = ("size", "0") ∷ ("zone", "a") ∷ [];
  run_as = record { user = some (RunAsUser.user "root"); method = none };
  jump = none;
}

listed : names (resolve_targets site (some "web-2, web, ,db")) ≡ "web-2" ∷ "web-1" ∷ "db" ∷ []
unfolding resolve_targets resolve_host parts
listed = refl

by_group_and_name : names (resolve_targets site (some "web:web-2")) ≡ "web-2" ∷ []
unfolding resolve_targets resolve_host
by_group_and_name = refl

logs_in_as : (resolve_host site (host "web-1" none) (some web)).user ≡ "deploy"
unfolding resolve_host
logs_in_as = refl

entries :
    map (λ e. e.plan ∷ names e.hosts) (resolve_group_plans site)
    ≡ ("web" ∷ "web-1" ∷ []) ∷ ("special" ∷ "web-2" ∷ []) ∷ []
unfolding resolve_group_plans resolve_host
entries = refl

resolve_targets-list_example :
    Distinct (names (resolve_targets site (some "web,db")))
    × ((n : String)
        → contains (names (resolve_targets site (some "web,db"))) n
          ≡ named_by site (parts "web,db") n)
unfolding read_until
resolve_targets-list_example = resolve_targets-list site "web,db" refl

resolve_host-levels_example :
    ((k : String)
      → get (resolve_host site (host "web-1" none) (some web)).vars k
        ≡ or_else
            (get (host "web-1" none).vars k)
            (or_else (get web.vars k) (get site.global_vars k)))
    × ((resolve_host site (host "web-1" none) (some web)).user
        ≡ unwrap_or
            (or_else none
              (get (resolve_host site (host "web-1" none) (some web)).vars "deploy-user"))
            "root")
    × ((password : Option String)
        → resolve (resolve_host site (host "web-1" none) (some web)).run_as password
          ≡ effective
              (first_user (inherit ∷ web.run_as ∷ site.run_as ∷ []))
              (first_method (inherit ∷ web.run_as ∷ site.run_as ∷ []))
              password)
resolve_host-levels_example =
    resolve_host-levels site (host "web-1" none) (some web) (refl, tt) (refl, (refl, tt))

-- The runs of hosts on the plan `web`.
abbrev on_web : String → String → Bool
on_web plan name = str_eq plan "web"

resolve_group_plans-runs_example :
    sum_of (runs_of on_web) (resolve_group_plans site) ≡ expected on_web site site.groups
resolve_group_plans-runs_example = resolve_group_plans-runs on_web site
