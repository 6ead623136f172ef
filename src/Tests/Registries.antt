-- ===== src/Tests/Registries.antt =====
-- A run with the built-in plugin and one stored row.
use qdrust.Base.{
  ℕ, codes, Text, Bool, true, Option, none, some, List, [], ◌∷◌, ok, err, ◌≡◌, ◌⊎◌, refl,
}
use qdrust.Base.Dict.{lookup, insert}
use qdrust.Json.{Value, object, array, string, no_items, item, no_fields, field}
use qdrust.Plugins.{
  PluginCapability, network, no_action, PluginRequest, PluginResponse, ApiUrl, Plugin,
  PluginRegistry, from_api_url, call, ProcessOutput, PluginCallResponse, same_capability,
  ensure_declared_capabilities, subprocess_call, subprocess,
}
use qdrust.Plugins.Loading.{StoredPlugin, load_plugins_for_owner, run_registry}
use qdrust.Plugins.Registered.{Answers, Served, call-Served}

abbrev util : Plugin
util = record {
  manifest = record {
    api_version = 1;
    id = codes "util";
    name = codes "Built-in utilities";
    version = codes "1";
    capabilities = [];
  };
  answer = λ request. some (err no_action);
}

abbrev echo : StoredPlugin
echo = record {
  id = 3;
  name = codes "Echo";
  command = codes "echo --loud";
  config =
      object
        (field (codes "capabilities") (array (item (string (codes "network")) no_items)) no_fields);
}

abbrev reads_network : Value → Option (List PluginCapability)
reads_network value = some (network ∷ [])

abbrev hello : PluginResponse
hello = record { status = 200; headers = []; body = codes "hello" }

-- A process that writes one byte, which stands for an answer that used the network.
abbrev writes : Text → List Text → PluginRequest → Option ProcessOutput
writes program arguments request = some (record { success = true; stdout = 1 ∷ [] })

abbrev at_once : Text → List Text → PluginRequest → Bool
at_once program arguments request = true

abbrev envelope : List ℕ → Option PluginCallResponse
envelope bytes = some (record { response = hello; capabilities_used = network ∷ [] })

-- Every URL is `api://plugin-3/run/`.
abbrev url : Text → Option ApiUrl
url value = some (record {
  scheme = codes "api";
  host = some (codes "plugin-3");
  path = codes "/run/";
  query = [];
})

abbrev loud : Plugin
loud =
    subprocess writes at_once envelope
      (record {
        api_version = 1;
        id = codes "plugin-3";
        name = codes "Echo";
        version = codes "1";
        capabilities = network ∷ [];
      })
      (codes "echo") (codes "--loud" ∷ [])

abbrev registry : PluginRegistry
registry = (codes "util", util) ∷ (codes "plugin-3", loud) ∷ []

made :
    run_registry util
      (load_plugins_for_owner reads_network writes at_once envelope (echo ∷ []) none)
    ≡ ok registry
unfolding run_registry load_plugins_for_owner subprocess lookup insert
made = refl

says_hello : call url (codes "api://plugin-3/run/") registry ≡ ok hello
unfolding call from_api_url lookup subprocess subprocess_call ensure_declared_capabilities
    same_capability
says_hello = refl

call-Served_example :
    (request : PluginRequest) × (from_api_url url (codes "api://plugin-3/run/") ≡ ok request)
    × (Answers util request hello
        ⊎ (((plugin : Plugin) × (none ≡ some plugin) × Answers plugin request hello)
            ⊎ Served reads_network writes at_once envelope (echo ∷ []) request hello))
call-Served_example =
    call-Served reads_network writes at_once envelope url (codes "api://plugin-3/run/") util
      (echo ∷ []) none made says_hello
