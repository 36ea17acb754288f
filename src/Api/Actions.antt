-- ===== src/Api/Actions.antt =====
-- apps/api/src/core-boundary.ts: `runCoreAction` and the actions.
use cool_tunnel_server.Api.Boundary.{
  Outside, BoundaryResult, quiet, build_server_render_accounts, failed, answered,
}
use cool_tunnel_server.Base.{
  Bool, true, false, not, Option, some, none, List, [], ◌∷◌, ◌++◌, if◌then◌else◌,
}
use cool_tunnel_server.Security.Json.{obj, field, str, num, bool, end}
use cool_tunnel_server.Store.Settings.{short_ids_of_row, record_render}
use cool_tunnel_server.Security.Validate.{validate_safe_path}
use cool_tunnel_server.Api.Routes.{CoreAction}
use cool_tunnel_server.Api.Caddyfile.{render_template}
use cool_tunnel_server.Config.{AdminConfig}
use cool_tunnel_server.Store.Monad.{◌>>=◌, ◌>>◌, Host, Env, M, return, read, write}
use cool_tunnel_server.Store.Db.{ServerConfig}
use cool_tunnel_server.Base.Texts.{Text, codes, is_empty, text_eq, length}
use cool_tunnel_server.Store.SettingsUpdate.{get_settings}
use cool_tunnel_server.Base.Results.{ok}

abbrev or_one_empty : List Text → List Text
or_one_empty [] = [] ∷ []
or_one_empty (id ∷ ids) = id ∷ ids

-- The names of the bindings of the template.
abbrev caddy_bindings : ServerConfig → List (Text × Text)
caddy_bindings settings =
    (codes "Domain", settings.domain)
    ∷ (codes "PanelDomain", settings.panel_domain)
    ∷ (codes "AcmeEmail", settings.acme_email)
    ∷ (codes "AcmeDirectory", settings.acme_directory)
    ∷ []

-- `done.join("\n")`
abbrev pub join_lines : List Text → Text
join_lines [] = []
join_lines (line ∷ []) = line
join_lines (line ∷ lines) = line ++ (b'\n' ∷ join_lines lines)

module _ (host : Host) (outside : Outside) where
  -- The loop of `restartServices` over the containers that are left.
  unfoldable pub restart_each : (done : List Text) → List Text → BoundaryResult
  restart_each done [] = quiet true 0 (join_lines done ++ codes "\n") []
  restart_each done (name ∷ names) =
      let rest = restart_each (done ++ ((codes "Restarted " ++ (name ++ codes ".")) ∷ [])) names in
      elim (outside.restart
        (outside.docker_api ++ (codes "/containers/" ++ (name ++ codes "/restart")))) [
          | failed message ↦ quiet false 1 (join_lines done) (
              host.redact
                (codes "Error restarting " ++ (name ++ (codes ": " ++ (message ++ codes "\n")))))
          | answered is_ok status ↦
              if is_ok
              then rest
              else quiet false 1 (join_lines done) (
                  codes "Failed to restart "
                  ++ (name
                      ++ (codes ": HTTP " ++ (host.platform.number_text status ++ codes ".\n"))))
        ]

  unfoldable pub restart_services : BoundaryResult
  unfolding restart_each
  restart_services =
      if is_empty outside.docker_api
      then quiet false 2 [] (
          codes
            "Restart is unavailable: CT_DOCKER_API (the Docker proxy) is not configured. Run `ct restart` from the VPS shell.\n")
      else restart_each [] (codes "ct-singbox" ∷ codes "ct-caddy" ∷ [])

  unfoldable pub render_singbox : AdminConfig → Env → M BoundaryResult
  render_singbox config env = do
    output ← read (λ db. validate_safe_path config.singbox_config_path)
    settings ← get_settings host env.ts
    accounts ← build_server_render_accounts host env
    read (λ db. outside.run_render output (record {
      domain = settings.domain;
      reality_private_key = config.reality_private_key;
      reality_short_ids = or_one_empty (short_ids_of_row settings);
      reality_dest_host = settings.reality_dest_host;
      accounts = accounts;
    }))

  -- `previous !== body`
  abbrev differs : Option Text → Text → Bool
  differs none body = true
  differs (some previous) body = not (text_eq previous body)

  unfoldable pub render_caddyfile : AdminConfig → Env → M BoundaryResult
  unfolding render_template
  render_caddyfile config env = do
    settings ← get_settings host env.ts
    template_path ← read (λ db. validate_safe_path config.caddyfile_template)
    output_path ← read (λ db. validate_safe_path config.caddyfile_path)
    template ← read (λ db. outside.read_template template_path)
    body ← read (λ db.
        render_template host.platform template (caddy_bindings settings)
          ((codes "LandingPage", config.landing_page_enabled) ∷ []))
    let changed = differs (outside.read_output output_path) body
    written ← read (λ db. if changed then outside.write_output output_path body else ok tt)
    let hash = outside.sha256_hex body
    write (record_render hash outside.rendered_at outside.updated_at)
    return (
        quiet true 0
          (host.platform.json_text (
              obj (
                field (codes "path") (str output_path) (
                  field (codes "bytes") (num (host.platform.number_text (length body))) (
                    field (codes "hash") (str hash) (field (codes "changed") (bool changed) end)))))
            ++ codes "\n")
          [])

  unfoldable pub run_core_action : CoreAction → AdminConfig → Env → M BoundaryResult
  unfolding restart_services render_singbox render_caddyfile
  run_core_action CoreAction.doctor config env = return (
      quiet true 0
        (codes "Run `ct doctor` on the VPS shell for full host and Docker diagnostics.\n") [])
  run_core_action CoreAction.render_caddyfile config env = render_caddyfile config env
  run_core_action CoreAction.render_singbox config env = render_singbox config env
  run_core_action CoreAction.restart_services config env = return restart_services
  run_core_action CoreAction.backup config env = return (
      quiet false 2 []
        (codes "Backup is intentionally CLI-only. Run `ct backup` from the VPS shell.\n"))
  run_core_action CoreAction.restore config env = return (
      quiet false 2 [] (
        codes
          "Restore is intentionally CLI-only. Run `ct restore <backup.tar.gz>` from the VPS shell.\n"))
