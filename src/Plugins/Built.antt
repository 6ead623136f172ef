-- ===== src/Plugins/Built.antt =====
-- Where the plugins of a run come from.
use qdrust.Base.{
  ℕ, Text, codes, split_whitespace, Option, none, some, List, [], ◌∷◌, ◌++◌, Result, ok, err,
  >>=-elim, All, ◌≡◌, ◌⊎◌, refl, sym, inl, inr, ok-injective, Bool,
}
use qdrust.Base.Counting.{Among}
use qdrust.Base.Decimal.{to_string}
use qdrust.Json.{Value}
use qdrust.Plugins.{
  PluginCapability, PluginManifest, PluginError, PluginRequest, Plugin, ProcessOutput,
  PluginCallResponse, validate, subprocess, from_words, from_command,
}
use qdrust.Plugins.Loading.{
  StoredPlugin, plugin_capabilities, build_plugin, with_plugin, with_browser,
  load_plugins_for_owner,
}

module _ (read_capabilities : Value → Option (List PluginCapability))
    (run : Text → List Text → PluginRequest → Option ProcessOutput)
    (in_time : Text → List Text → PluginRequest → Bool)
    (read_envelope : List ℕ → Option PluginCallResponse) where
  -- A plugin that a stored row gives.
  pub record IsBuilt (rows : List StoredPlugin) (plugin : Plugin) : Type 0 where
    pub row : StoredPlugin
    pub manifest : PluginManifest
    pub program : Text
    pub arguments : List Text
    pub stored : Among row rows
    pub id : manifest.id ≡ codes "plugin-" ++ to_string row.id
    pub capabilities : plugin_capabilities read_capabilities row.config ≡ ok manifest.capabilities
    pub words : split_whitespace row.command ≡ program ∷ arguments
    pub same : plugin ≡ subprocess run in_time read_envelope manifest program arguments

  from_words-built :
      (manifest : PluginManifest) (words : List Text) {plugin : Plugin}
      → from_words run in_time read_envelope manifest words ≡ ok plugin
      → (program : Text) × (arguments : List Text) × (words ≡ program ∷ arguments)
        × (plugin ≡ subprocess run in_time read_envelope manifest program arguments)
  unfolding from_words
  from_words-built manifest [] h = cc
  from_words-built manifest (program ∷ arguments) {plugin} h =
      >>=-elim (validate manifest) _ h
        λ _ _ h. (program, arguments, refl, sym (ok-injective {b = plugin} h))

  build_plugin-IsBuilt :
      (rows : List StoredPlugin) (row : StoredPlugin) {plugin : Plugin}
      → Among row rows
      → build_plugin read_capabilities run in_time read_envelope row ≡ ok plugin
      → IsBuilt rows plugin
  unfolding build_plugin from_command
  build_plugin-IsBuilt rows row {plugin} stored h =
      >>=-elim (plugin_capabilities read_capabilities row.config) _ h λ capabilities e h.
        let manifest : PluginManifest = record {
          api_version = 1;
          id = codes "plugin-" ++ to_string row.id;
          name = row.name;
          version = codes "1";
          capabilities = capabilities;
        } in
        let (program, arguments, words, same) =
          from_words-built manifest (split_whitespace row.command) {plugin = plugin} h in
        record {
          row = row;
          manifest = manifest;
          program = program;
          arguments = arguments;
          stored = stored;
          id = refl;
          capabilities = e;
          words = words;
          same = same;
        }

  module _ (utility : Plugin) (all_rows : List StoredPlugin) (browser : Option Plugin) where
    -- The built-in plugin, the browser's, or one of a stored row.
    abbrev pub Origin : Plugin → Type 0
    Origin plugin = (plugin ≡ utility) ⊎ ((browser ≡ some plugin) ⊎ IsBuilt all_rows plugin)

    with_plugin-Origin :
        (row : StoredPlugin) (result : Result PluginError Plugin) (plugins : List Plugin)
        → Among row all_rows
        → build_plugin read_capabilities run in_time read_envelope row ≡ result
        → All Origin plugins
        → All Origin (with_plugin result plugins)
    unfolding with_plugin
    with_plugin-Origin row (ok plugin) plugins a e h =
        (inr (inr (build_plugin-IsBuilt all_rows row a e)), h)
    with_plugin-Origin row (err x) plugins a e h = h

    with_browser-Origin : (b : Option Plugin) → browser ≡ b → All Origin (with_browser b)
    unfolding with_browser
    with_browser-Origin none e = tt
    with_browser-Origin (some plugin) e = (inr (inl e), tt)

    pub load_plugins-Origin :
        (rows : List StoredPlugin)
        → ((row : StoredPlugin) → Among row rows → Among row all_rows)
        → All Origin
            (load_plugins_for_owner read_capabilities run in_time read_envelope rows browser)
    unfolding load_plugins_for_owner
    load_plugins-Origin [] inside = with_browser-Origin browser refl
    load_plugins-Origin (row ∷ rows) inside =
        with_plugin-Origin row (build_plugin read_capabilities run in_time read_envelope row) _
          (inside row (inl refl)) refl (load_plugins-Origin rows (λ other a. inside other (inr a)))
