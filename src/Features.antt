-- ===== src/Features.antt =====
-- Presets of directives, plugins and environment variables (internal/features/presets.go), and how an
-- instance's own ones are merged with them. The source lists the environment in the random order of a map;
-- here it has the order in which the names first occur.
pub mod Builtin
pub mod Dedupe
use openvpnd.Base.{Bool, true, false, ◌||◌, Option, none, some, List, [], ◌∷◌, ◌++◌, if◌then◌else◌}
use openvpnd.Base.Text.{Bytes, codes, bytes_eq, trim_space}
use openvpnd.Base.Strings.{join}
use openvpnd.Base.Sort.{member}
use openvpnd.Base.Assoc.{Assoc, lookup, put}
use openvpnd.Models.{Plugin, EnvVar, FeaturePreset}
use openvpnd.Features.Builtin.{builtin}

abbrev pub Presets : Type 0
Presets = Assoc FeaturePreset

put_all : List FeaturePreset → Presets → Presets
put_all [] m = m
put_all (p ∷ ps) m = put_all ps (put p.id p m)

-- The map by id: custom presets after the built-in ones.
unfoldable pub by_id : List FeaturePreset → Presets
unfolding put_all
by_id custom = put_all custom (put_all builtin [])

-- What an expansion has collected.
pub record Expansion : Type 0 where
  pub extra_parts : List Bytes
  pub plugins : List Plugin
  pub env : List EnvVar

abbrev directives_part : FeaturePreset → List Bytes
directives_part p =
    if bytes_eq (trim_space p.extra_directives) []
    then []
    else (codes "# feature:" ++ p.id ++ codes "\n" ++ trim_space p.extra_directives) ∷ []

abbrev add_preset : Bytes → Option FeaturePreset → Expansion → Expansion
add_preset id none e = record e {
  extra_parts = e.extra_parts ++ ((codes "# unknown feature_set: " ++ id) ∷ []);
}
add_preset id (some p) e = record {
  extra_parts = e.extra_parts ++ directives_part p;
  plugins = e.plugins ++ p.plugins;
  env = e.env ++ p.env_vars;
}

unfoldable pub add_presets : Presets → List Bytes → Expansion → Expansion
add_presets m [] e = e
add_presets m (raw ∷ ids) e =
    let id = trim_space raw in
    add_presets m ids (if bytes_eq id [] then e else add_preset id (lookup id m) e)

abbrev own_part : Bytes → List Bytes
own_part extra = if bytes_eq (trim_space extra) [] then [] else trim_space extra ∷ []

same_args : List Bytes → List Bytes → Bool
same_args xs ys = bytes_eq (join (0 ∷ []) xs) (join (0 ∷ []) ys)

-- Whether a plugin has the key of one in the list: the path, and the arguments joined by a zero byte.
unfoldable pub seen_plugin : Plugin → List Plugin → Bool
unfolding same_args
seen_plugin p [] = false
seen_plugin p (q ∷ qs) =
    elim (bytes_eq q.path p.path) [ true ↦ same_args q.args p.args | false ↦ false ]
    || seen_plugin p qs

-- `dedupePlugins`; `out` has the ones kept so far.
unfoldable pub dedupe_from : List Plugin → List Plugin → List Plugin
unfolding seen_plugin
dedupe_from out [] = out
dedupe_from out (p ∷ ps) =
    dedupe_from (if bytes_eq p.path [] || seen_plugin p out then out else out ++ (p ∷ [])) ps

unfoldable pub dedupe_plugins : List Plugin → List Plugin
unfolding dedupe_from
dedupe_plugins ps = dedupe_from [] ps

unfoldable pub env_map : List EnvVar → Assoc Bytes → Assoc Bytes
env_map [] m = m
env_map (e ∷ es) m = env_map es (if bytes_eq e.name [] then m else put e.name e.value m)

unfoldable pub env_of : Assoc Bytes → List EnvVar
env_of [] = []
env_of ((n, v) ∷ m) = record { name = n; value = v } ∷ env_of m

-- `dedupeEnv`.
unfoldable pub dedupe_env : List EnvVar → List EnvVar
unfolding env_map env_of
dedupe_env es = env_of (env_map es [])

-- `Expand`: the directives, the plugins and the environment.
unfoldable pub expand :
    List Bytes
    → List FeaturePreset
    → Bytes
    → List Plugin
    → List EnvVar
    → Bytes × List Plugin × List EnvVar
unfolding by_id add_presets dedupe_plugins dedupe_env
expand ids custom base_extra base_plugins base_env =
    let start : Expansion = record {
      extra_parts = own_part base_extra;
      plugins = base_plugins;
      env = base_env;
    } in
    let e = add_presets (by_id custom) ids start in
    (join (codes "\n\n") e.extra_parts, dedupe_plugins e.plugins, dedupe_env e.env)

replace_first : FeaturePreset → List FeaturePreset → List FeaturePreset
replace_first p [] = []
replace_first p (q ∷ qs) =
    let rest = replace_first p qs in if bytes_eq q.id p.id then p ∷ qs else q ∷ rest

abbrev ids_of : List FeaturePreset → List Bytes
ids_of [] = []
ids_of (p ∷ ps) = p.id ∷ ids_of ps

unfoldable pub merge_custom : List FeaturePreset → List FeaturePreset → List FeaturePreset
unfolding replace_first
merge_custom out [] = out
merge_custom out (p ∷ ps) =
    merge_custom (if member p.id (ids_of builtin) then replace_first p out else out ++ (p ∷ [])) ps

-- `ListMerged`: a custom preset takes the place of the built-in one of its id.
unfoldable pub list_merged : List FeaturePreset → List FeaturePreset
unfolding merge_custom
list_merged custom = merge_custom builtin custom
