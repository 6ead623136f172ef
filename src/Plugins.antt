-- ===== src/Plugins.antt =====
-- crates/qdrust-core/src/plugin.rs: manifests, requests, the registry, and a plugin that is a process.
pub mod Loading
pub mod Built
pub mod Kept
pub mod Registered
use qdrust.Base.{
  ℕ, ◌+◌, ◌*◌, ◌==◌, leb, Text, text_eq, codes, is_empty, is_blank, split_whitespace, Bool, true,
  false, not, ◌&&◌, ◌||◌, any, all, is_some, Option, none, some, List, [], ◌∷◌, reverse, length,
  Result, ok, err, ensure, ◌>>=◌, ◌>>◌, map_err, if◌then◌else◌,
}
use qdrust.Base.Dict.{Dict, lookup, insert}
use qdrust.Scheduler.Trace.{byte_length}

pub data PluginCapability : Type 0 where
  network read_file write_file environment : PluginCapability

unfoldable pub same_capability : PluginCapability → PluginCapability → Bool
same_capability network network = true
same_capability read_file read_file = true
same_capability write_file write_file = true
same_capability environment environment = true
same_capability _ _ = false

pub record PluginManifest : Type 0 where
  pub api_version : ℕ
  pub id : Text
  pub name : Text
  pub version : Text
  pub capabilities : List PluginCapability

pub data PluginError : Type 0 where
  unsupported_version invalid_id empty_name empty_version : PluginError
  invalid_url not_api no_id no_action : PluginError
  already_registered unavailable timed_out : PluginError
  not_started process_failed output_limit invalid_response : PluginError
  undeclared : PluginCapability → PluginError
  call_failed : PluginError → PluginError
  empty_command invalid_capabilities : PluginError

is_id_byte : ℕ → Bool
is_id_byte c = leb b'a' c && leb c b'z' || leb b'0' c && leb c b'9' || c == b'-'

unfoldable pub valid_plugin_id : Text → Bool
unfolding is_id_byte byte_length
valid_plugin_id value = not (is_empty value) && leb (byte_length value) 64 && all is_id_byte value

unfoldable pub validate : PluginManifest → Result PluginError (Unit {0})
unfolding valid_plugin_id is_blank
validate manifest =
    ensure (manifest.api_version == 1) unsupported_version
    >> ensure (valid_plugin_id manifest.id) invalid_id
    >> ensure (not (is_blank manifest.name)) empty_name
    >> ensure (not (is_blank manifest.version)) empty_version

pub record PluginRequest : Type 0 where
  pub plugin_id : Text
  pub action : Text
  pub query : Dict Text

pub record PluginResponse : Type 0 where
  pub status : ℕ
  pub headers : Dict Text
  pub body : List ℕ

-- What the URL library reads.
pub record ApiUrl : Type 0 where
  pub scheme : Text
  pub host : Option Text
  pub path : Text
  pub query : Dict Text

trim_start_slashes : Text → Text
trim_start_slashes [] = []
trim_start_slashes (c ∷ t) = elim (c == b'/') [ true ↦ trim_start_slashes t | false ↦ c ∷ t ]

-- `trim_matches('/')`
trim_slashes : Text → Text
unfolding trim_start_slashes
trim_slashes t = reverse (trim_start_slashes (reverse (trim_start_slashes t)))

required {ℓ} : {A : Type ℓ} → PluginError → Option A → Result PluginError A
required e none = err e
required e (some a) = ok a

-- A plugin as its manifest and its answers, of which none stands for no answer in time.
pub record Plugin : Type 0 where
  pub manifest : PluginManifest
  pub answer : PluginRequest → Option (Result PluginError PluginResponse)

abbrev pub PluginRegistry : Type 0
PluginRegistry = Dict Plugin

registered :
    Result PluginError (Unit {0})
    → Plugin
    → PluginRegistry
    → Result PluginError (Unit {0}) × PluginRegistry
registered (err e) plugin registry = (err e, registry)
registered (ok u) plugin registry =
    if is_some (lookup plugin.manifest.id registry)
    then (err already_registered, registry)
    else (ok tt, insert plugin.manifest.id plugin registry)

unfoldable pub register : Plugin → PluginRegistry → Result PluginError (Unit {0}) × PluginRegistry
unfolding registered validate
register plugin registry = registered (validate plugin.manifest) plugin registry

answered : Option (Result PluginError PluginResponse) → Result PluginError PluginResponse
answered none = err timed_out
answered (some result) = map_err call_failed result

module _ (parse_url : Text → Option ApiUrl) where
  unfoldable pub from_api_url : Text → Result PluginError PluginRequest
  unfolding required trim_slashes valid_plugin_id
  from_api_url value = required invalid_url (parse_url value) >>= λ url.
      ensure (text_eq url.scheme (codes "api")) not_api >>= λ _.
      required no_id url.host >>= λ plugin_id.
      ensure (valid_plugin_id plugin_id) invalid_id >>= λ _.
      let action = trim_slashes url.path in
      ensure (not (is_empty action)) no_action >>= λ _.
      ok (record { plugin_id = plugin_id; action = action; query = url.query })

  unfoldable pub call : Text → PluginRegistry → Result PluginError PluginResponse
  unfolding from_api_url required answered
  call value registry = from_api_url value >>= λ request.
      required unavailable (lookup request.plugin_id registry) >>= λ plugin.
      answered (plugin.answer request)

-- What a process leaves, and what a plugin writes to its output.
pub record ProcessOutput : Type 0 where
  pub success : Bool
  pub stdout : List ℕ

pub record PluginCallResponse : Type 0 where
  pub response : PluginResponse
  pub capabilities_used : List PluginCapability

abbrev pub output_bytes : ℕ
output_bytes = 1024 * 1024

unfoldable pub ensure_declared_capabilities :
    PluginManifest → List PluginCapability → Result PluginError (Unit {0})
unfolding same_capability
ensure_declared_capabilities manifest [] = ok tt
ensure_declared_capabilities manifest (capability ∷ used) =
    let rest = ensure_declared_capabilities manifest used in
    ensure (any (λ c. same_capability c capability) manifest.capabilities) (undeclared capability)
    >> rest

-- The operating system runs a program with its arguments on a request, within the time that a call
-- is given or not, and a JSON library reads its output.
module _ (run : Text → List Text → PluginRequest → Option ProcessOutput)
    (in_time : Text → List Text → PluginRequest → Bool)
    (read_envelope : List ℕ → Option PluginCallResponse) where
  unfoldable pub subprocess_call :
      PluginManifest → Text → List Text → PluginRequest → Result PluginError PluginResponse
  unfolding required ensure_declared_capabilities
  subprocess_call manifest program arguments request =
      required not_started (run program arguments request) >>= λ output.
      ensure output.success process_failed >>= λ _.
      ensure (leb (length output.stdout) output_bytes) output_limit >>= λ _.
      required invalid_response (read_envelope output.stdout) >>= λ envelope.
      ensure_declared_capabilities manifest envelope.capabilities_used >>= λ _. ok envelope.response

  -- `SubprocessPlugin`, whose timing stands outside.
  unfoldable pub subprocess : PluginManifest → Text → List Text → Plugin
  unfolding subprocess_call
  subprocess manifest program arguments = record {
    manifest = manifest;
    answer = λ request.
        if in_time program arguments request
        then some (subprocess_call manifest program arguments request)
        else none;
  }

  unfoldable pub from_words : PluginManifest → List Text → Result PluginError Plugin
  unfolding subprocess validate
  from_words manifest [] = err empty_command
  from_words manifest (program ∷ arguments) =
      validate manifest >> ok (subprocess manifest program arguments)

  unfoldable pub from_command : PluginManifest → Text → Result PluginError Plugin
  unfolding from_words split_whitespace
  from_command manifest command = from_words manifest (split_whitespace command)
