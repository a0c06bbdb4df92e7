-- ===== src/Gateway/Config/Routes.antt =====
-- Which backend a tool is routed to.
use trackward.Prelude.{
  ◌≡◌, refl, sym, ap, ◌∙◌, List, [], ◌∷◌, Bytes, bytes_eq, bytes_eq→eq, Bool, true, false, Option,
  none, some, if◌then◌else◌,
}
use trackward.Prelude.Text.{trim, split_on, split_once}
use trackward.Gateway.Approval.{lookup, update}
use trackward.Gateway.Approval.Decisions.{lookup-update, lookup-update_other}
use trackward.Gateway.ToolProxy.{resolve}
use trackward.Gateway.Config.{add_route, collect_routes, parse_routes}

-- The URL of an entry for the tool, or what was found before it.
abbrev url_for : (tool : Bytes) → Option (Bytes × Bytes) → Option Bytes → Option Bytes
url_for tool none found = found
url_for tool (some (name, url)) found = if bytes_eq (trim name) tool then some (trim url) else found

-- The URL of the last entry for the tool.
abbrev pub last_url : (tool : Bytes) → List Bytes → Option Bytes → Option Bytes
last_url tool [] found = found
last_url tool (e ∷ es) found = last_url tool es (url_for tool (split_once 61 e []) found)

resolve-add_route :
    (tool : Bytes) (o : Option (Bytes × Bytes)) (routes : List (Bytes × Bytes))
    → resolve (add_route o routes) tool ≡ url_for tool o (resolve routes tool)
unfolding resolve
resolve-add_route tool none routes = refl
resolve-add_route tool (some (name, url)) routes = by (bytes_eq (trim name) tool) refl
  where
    by :
        (same : Bool)
        → bytes_eq (trim name) tool ≡ same
        → lookup tool (update (trim name) (trim url) routes)
          ≡ (if same then some (trim url) else lookup tool routes)
    by true e =
        ap (λ k. lookup k (update (trim name) (trim url) routes))
          (sym (bytes_eq→eq (trim name) tool e))
        ∙ lookup-update (trim name) (trim url) routes
    by false e = lookup-update_other tool (trim name) (trim url) routes e

resolve-collect_routes :
    (tool : Bytes) (es : List Bytes) (routes : List (Bytes × Bytes))
    → resolve (collect_routes es routes) tool ≡ last_url tool es (resolve routes tool)
unfolding collect_routes
resolve-collect_routes tool [] routes = refl
resolve-collect_routes tool (e ∷ es) routes =
    resolve-collect_routes tool es (add_route (split_once 61 e []) routes)
    ∙ ap (last_url tool es) (resolve-add_route tool (split_once 61 e []) routes)

-- A tool is routed by the text of `TOOL_ROUTES` to the URL of the last entry between commas that has
-- a `=` and the tool's name before the first one, and to nothing when there is none.
pub resolve-parse_routes :
    (tool text : Bytes)
    → resolve (parse_routes text) tool ≡ last_url tool (split_on 44 text []) none
unfolding parse_routes resolve lookup
resolve-parse_routes tool text = resolve-collect_routes tool (split_on 44 text []) []
