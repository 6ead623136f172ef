-- ===== src/Plugins/Loading.antt =====
-- The plugins of a run: `plugin_capabilities` of crates/qdrust-server/src/model.rs, `build_plugin`
-- and `load_plugins_for_owner` of scheduler.rs with the loop that registers them for a run, and the
-- registry that `QdExecutor::with_options` of crates/qdrust-core/src/executor.rs begins with.
use qdrust.Base.{
  ℕ, Text, codes, Bool, Option, none, some, List, [], ◌∷◌, ◌++◌, Result, ok, err, ◌>>=◌,
}
use qdrust.Base.Decimal.{to_string}
use qdrust.Json.{Value, null, bool, number, string, array, object, get_field}
use qdrust.Plugins.{
  PluginCapability, PluginError, invalid_capabilities, PluginRequest, ProcessOutput,
  PluginCallResponse, Plugin, PluginRegistry, register, from_command,
}

-- A row of the table of plugins, which the store gives where it is enabled.
pub record StoredPlugin : Type 0 where
  pub id : ℕ
  pub name : Text
  pub command : Text
  pub config : Value

pub member : Text → Value → Option Value
unfolding get_field
member key (object fields) = get_field key fields
member key null = none
member key (bool b) = none
member key (number n) = none
member key (string t) = none
member key (array items) = none

unfoldable pub with_plugin : Result PluginError Plugin → List Plugin → List Plugin
with_plugin (ok plugin) plugins = plugin ∷ plugins
with_plugin (err e) plugins = plugins

unfoldable pub with_browser : Option Plugin → List Plugin
with_browser none = []
with_browser (some browser) = browser ∷ []

-- The JSON library reads a list of capabilities.
module _ (read_capabilities : Value → Option (List PluginCapability)) where
  declared : Option Value → Result PluginError (List PluginCapability)
  declared none = ok []
  declared (some value) = elim (read_capabilities value) [
    | none ↦ err invalid_capabilities
    | some capabilities ↦ ok capabilities
  ]

  unfoldable pub plugin_capabilities : Value → Result PluginError (List PluginCapability)
  unfolding declared member
  plugin_capabilities config = declared (member (codes "capabilities") config)

  module _ (run : Text → List Text → PluginRequest → Option ProcessOutput)
      (in_time : Text → List Text → PluginRequest → Bool)
      (read_envelope : List ℕ → Option PluginCallResponse) where
    unfoldable pub build_plugin : StoredPlugin → Result PluginError Plugin
    unfolding plugin_capabilities from_command to_string
    build_plugin row = plugin_capabilities row.config >>= λ capabilities.
        from_command run in_time read_envelope
          (record {
            api_version = 1;
            id = codes "plugin-" ++ to_string row.id;
            name = row.name;
            version = codes "1";
            capabilities = capabilities;
          })
          row.command

    -- A row that gives no plugin is skipped; the browser's comes last.
    unfoldable pub load_plugins_for_owner : List StoredPlugin → Option Plugin → List Plugin
    unfolding build_plugin with_plugin with_browser
    load_plugins_for_owner [] browser = with_browser browser
    load_plugins_for_owner (row ∷ rows) browser =
        with_plugin (build_plugin row) (load_plugins_for_owner rows browser)

-- A plugin that is refused leaves the registry, and the next is tried.
unfoldable pub register_each : List Plugin → PluginRegistry → PluginRegistry
unfolding register
register_each [] registry = registry
register_each (plugin ∷ plugins) registry = register_each plugins (register plugin registry).1

unfoldable pub begun :
    Result PluginError (Unit {0}) × PluginRegistry → List Plugin → Result PluginError PluginRegistry
unfolding register_each
begun (err e, registry) plugins = err e
begun (ok u, registry) plugins = ok (register_each plugins registry)

-- The registry of a run: the built-in plugin, without which there is no executor, then the others.
unfoldable pub run_registry : Plugin → List Plugin → Result PluginError PluginRegistry
unfolding register begun
run_registry utility plugins = begun (register utility []) plugins
