-- ===== src/Reconcile/Desired.antt =====
-- What the backend is asked to run for an instance (`applyInstance` in internal/reconcile/reconciler.go).
use openvpnd.Base.{
  Bool, not, ◌&&◌, Option, none, some, List, [], ◌∷◌, ◌++◌, length, ◌==◌, if◌then◌else◌,
}
use openvpnd.Base.Text.{Bytes, codes, bytes_eq}
use openvpnd.Base.Assoc.{Assoc, put}
use openvpnd.Models.{EnvVar, Instance, Client}
use openvpnd.Features.{expand}
use openvpnd.Confgen.{Paths, conf_file, ccd_dir, is_set}
use openvpnd.Confgen.Render.{render_instance_opts}
use openvpnd.Confgen.Ccd.{render_ccd, safe_cn_filename}
use openvpnd.Backend.{DesiredInstance}
use openvpnd.Reconcile.{Config, Answers, Reconciler}

abbrev binary_name : Config → Instance → Bytes
binary_name cfg inst = if bytes_eq inst.binary_name [] then cfg.default_binary else inst.binary_name

-- The path of the binary; the path of the instance stands in when the name is not known.
abbrev pub binary_path : Config → Answers → Instance → Option Bytes
binary_path cfg answers inst =
    elim (answers.resolve_binary (binary_name cfg inst) inst.binary_path) [
      | some path ↦ some path
      | none ↦ if is_set inst.binary_path then some inst.binary_path else none
    ]

abbrev pub is_server : Instance → Bool
is_server inst = bytes_eq inst.role (codes "server")

abbrev paths_of : Config → Instance → Paths
paths_of cfg inst = record {
  conf_dir = cfg.conf_dir;
  runtime_dir = cfg.runtime_dir;
  name = inst.name;
}

abbrev ca_pem : Answers → Instance → Bytes
ca_pem answers inst =
    if not (length inst.extra_client_ca_pems == 0) && is_set inst.pki_ca_path
    then (elim (answers.read_file inst.pki_ca_path) [ none ↦ [] | some pem ↦ pem ])
    else []

abbrev pub render : Config → Answers → Instance → List Client → Reconciler → Option Bytes
render cfg answers inst clients r = render_instance_opts inst (paths_of cfg inst) clients (record {
  custom_presets = r.store.presets;
  bandwidth_enforcement = cfg.bandwidth_enforcement;
  instance_ca_pem = ca_pem answers inst;
})

unfoldable pub ccd_files : Instance → List Client → Assoc Bytes → Assoc Bytes
ccd_files inst [] m = m
ccd_files inst (c ∷ cs) m =
    ccd_files inst cs (put (safe_cn_filename c.common_name) (render_ccd c inst.server_network) m)

abbrev env_text : List EnvVar → List Bytes
env_text [] = []
env_text (e ∷ es) =
    let rest = env_text es in
    if bytes_eq e.name [] then rest else (e.name ++ codes "=" ++ e.value) ∷ rest

abbrev pub desired : Config → Instance → Bytes → Bytes → List Client → Reconciler → DesiredInstance
desired cfg inst binary content clients r = record {
  name = inst.name;
  role = inst.role;
  enabled = inst.enabled;
  binary_path = binary;
  conf_path = conf_file (paths_of cfg inst);
  conf_content = content;
  ccd_dir = ccd_dir (paths_of cfg inst);
  ccd_files = if is_server inst then ccd_files inst clients [] else [];
  env = env_text ((expand inst.feature_sets r.store.presets [] [] inst.env_vars).2);
  allow_hooks = cfg.allow_hooks;
}
