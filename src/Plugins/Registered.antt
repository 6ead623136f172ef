-- ===== src/Plugins/Registered.antt =====
-- What the plugins of a run answer through the registry of plugin.rs.
use mathlib.Core.Option.{some-injective, none-ne-some}
use qdrust.Base.{
  ℕ, ◌≤◌, leb, leb→le, Text, codes, split_whitespace, Bool, true, any, Option, none, some, List, [],
  ◌∷◌, ◌++◌, length, Result, ok, err, ensure, ensure-eq-ok, >>=-elim, map_err, All, ◌≡◌, ◌⊎◌, refl,
  sym, ap, subst, ◌∙◌, inl, inr, Bool-cases, ok-injective,
}
use qdrust.Base.Counting.{Among}
use qdrust.Base.Decimal.{to_string}
use qdrust.Base.Dict.{lookup}
use qdrust.Json.{Value}
use qdrust.Plugins.{
  PluginCapability, network, read_file, write_file, environment, same_capability, PluginManifest,
  PluginError, PluginRequest, PluginResponse, ApiUrl, Plugin, PluginRegistry, required, answered,
  from_api_url, call, ProcessOutput, PluginCallResponse, output_bytes, ensure_declared_capabilities,
  subprocess_call, subprocess, not_started, process_failed, output_limit, invalid_response,
  unavailable, call_failed,
}
use qdrust.Plugins.Loading.{StoredPlugin, plugin_capabilities, load_plugins_for_owner, run_registry}
use qdrust.Plugins.Built.{IsBuilt, Origin, load_plugins-Origin}
use qdrust.Plugins.Kept.{IsKept-found, run_registry-IsKept}

same_capability→eq : (a b : PluginCapability) → same_capability a b ≡ true → a ≡ b
unfolding same_capability
same_capability→eq network network h = refl
same_capability→eq network read_file h = cc
same_capability→eq network write_file h = cc
same_capability→eq network environment h = cc
same_capability→eq read_file network h = cc
same_capability→eq read_file read_file h = refl
same_capability→eq read_file write_file h = cc
same_capability→eq read_file environment h = cc
same_capability→eq write_file network h = cc
same_capability→eq write_file read_file h = cc
same_capability→eq write_file write_file h = refl
same_capability→eq write_file environment h = cc
same_capability→eq environment network h = cc
same_capability→eq environment read_file h = cc
same_capability→eq environment write_file h = cc
same_capability→eq environment environment h = refl

any-Among :
    (capability : PluginCapability) (declared : List PluginCapability)
    → any (λ c. same_capability c capability) declared ≡ true
    → Among capability declared
any-Among capability [] h = cc
any-Among capability (c ∷ declared) h = elim (Bool-cases (same_capability c capability)) [
  | inl e ↦ inl (sym (same_capability→eq c capability e))
  | inr e ↦ inr (any-Among capability declared (rw e at h))
]

all-Among :
    (manifest : PluginManifest) (used : List PluginCapability) {u : Unit {0}}
    → ensure_declared_capabilities manifest used ≡ ok u
    → All (λ c. Among c manifest.capabilities) used
unfolding ensure_declared_capabilities
all-Among manifest [] h = tt
all-Among manifest (capability ∷ used) h =
    elim (Bool-cases (any (λ c. same_capability c capability) manifest.capabilities)) [
      | inl e ↦ (any-Among capability manifest.capabilities e, all-Among manifest used (rw e at h))
      | inr e ↦ absurd (refused (rw e at h))
    ]
  where
    refused : {E : Type 0} {e : E} {u : Unit {0}} → err e ≡ ok u → ⊥
    refused h = cc

required-ok :
    {A : Type 0} (e : PluginError) (o : Option A) {a : A} → required e o ≡ ok a → o ≡ some a
unfolding required
required-ok e none h = cc
required-ok e (some b) h = ap (or_none b) h
  where
    or_none : {A : Type 0} → A → Result PluginError A → Option A
    or_none b (ok a) = some a
    or_none b (err e) = none

map_err-ok :
    {A : Type 0} (f : PluginError → PluginError) (r : Result PluginError A) {a : A}
    → map_err f r ≡ ok a
    → r ≡ ok a
map_err-ok f (ok b) h = h
map_err-ok f (err e) h = cc

answered-ok :
    (o : Option (Result PluginError PluginResponse)) {a : PluginResponse}
    → answered o ≡ ok a
    → o ≡ some (ok a)
unfolding answered
answered-ok none h = cc
answered-ok (some r) h = ap some (map_err-ok call_failed r h)

-- A plugin gave the answer itself.
pub Answers : Plugin → PluginRequest → PluginResponse → Type 0
Answers plugin request response =
    (plugin.manifest.id ≡ request.plugin_id) × (plugin.answer request ≡ some (ok response))

module _ (read_capabilities : Value → Option (List PluginCapability))
    (run : Text → List Text → PluginRequest → Option ProcessOutput)
    (in_time : Text → List Text → PluginRequest → Bool)
    (read_envelope : List ℕ → Option PluginCallResponse) where
  -- How the process of a stored row came to its answer.
  pub record Served (rows : List StoredPlugin) (request : PluginRequest) (response : PluginResponse)
      : Type 0 where
    pub row : StoredPlugin
    pub program : Text
    pub arguments : List Text
    pub capabilities : List PluginCapability
    pub output : ProcessOutput
    pub envelope : PluginCallResponse
    pub stored : Among row rows
    pub addressed : request.plugin_id ≡ codes "plugin-" ++ to_string row.id
    pub words : split_whitespace row.command ≡ program ∷ arguments
    pub reads : plugin_capabilities read_capabilities row.config ≡ ok capabilities
    pub ran : run program arguments request ≡ some output
    pub timely : in_time program arguments request ≡ true
    pub worked : output.success ≡ true
    pub short : length output.stdout ≤ output_bytes
    pub read : read_envelope output.stdout ≡ some envelope
    pub declared : All (λ c. Among c capabilities) envelope.capabilities_used
    pub same : envelope.response ≡ response

  served :
      (rows : List StoredPlugin) (plugin : Plugin) (request : PluginRequest)
      {response : PluginResponse}
      → IsBuilt read_capabilities run in_time read_envelope rows plugin
      → Answers plugin request response
      → Served rows request response
  unfolding Answers subprocess subprocess_call
  served rows plugin request {response} b (i, h) =
      let p = subst (λ q. Answers q request response) b.same (i, h) in
      elim (Bool-cases (in_time b.program b.arguments request)) [
        | inr t ↦ absurd (none-ne-some (ok response) (rw t at p.1))
        | inl t ↦
            (let answer =
                some-injective
                  (subprocess_call run in_time read_envelope b.manifest b.program b.arguments
                    request)
                  (ok response) (rw t at p.1) in
              >>=-elim (required not_started (run b.program b.arguments request)) _ answer
                λ output e h. >>=-elim (ensure output.success process_failed) _ h λ _ w h.
                  >>=-elim (ensure (leb (length output.stdout) output_bytes) output_limit) _ h
                    λ _ l h.
                      >>=-elim (required invalid_response (read_envelope output.stdout)) _ h
                        λ envelope r h.
                          >>=-elim
                            (ensure_declared_capabilities b.manifest envelope.capabilities_used) _ h
                            λ _ d h. record {
                              row = b.row;
                              program = b.program;
                              arguments = b.arguments;
                              capabilities = b.manifest.capabilities;
                              output = output;
                              envelope = envelope;
                              stored = b.stored;
                              addressed = sym p.0 ∙ b.id;
                              words = b.words;
                              reads = b.capabilities;
                              ran = required-ok not_started _ e;
                              timely = t;
                              worked = ensure-eq-ok output.success _ w;
                              short =
                                  leb→le (length output.stdout) output_bytes
                                    (ensure-eq-ok (leb (length output.stdout) output_bytes) _ l);
                              read = required-ok invalid_response _ r;
                              declared = all-Among b.manifest envelope.capabilities_used d;
                              same = ok-injective {b = response} h;
                            })
      ]

  whose :
      (utility : Plugin) (rows : List StoredPlugin) (browser : Option Plugin) (plugin : Plugin)
      (request : PluginRequest) {response : PluginResponse}
      → Origin read_capabilities run in_time read_envelope utility rows browser plugin
      → Answers plugin request response
      → Answers utility request response
        ⊎ (((p : Plugin) × (browser ≡ some p) × Answers p request response)
            ⊎ Served rows request response)
  whose utility rows browser plugin request {response} (inl e) a =
      inl (subst (λ p. Answers p request response) e a)
  whose utility rows browser plugin request (inr (inl e)) a = inr (inl (plugin, e, a))
  whose utility rows browser plugin request (inr (inr b)) a =
      inr (inr (served rows plugin request b a))

  module _ (parse_url : Text → Option ApiUrl) where
    -- Through the registry of a run, made of the built-in plugin, those of the owner's stored rows
    -- and the browser's where there is one, a call that gives an answer has it from the built-in
    -- plugin or the browser's, under its id, or from the process of a stored row: the row's number
    -- is in the id that the URL names, its command was run on the request, in time and ended well
    -- with at most 1 MiB of output, and it reported no capability that the row does not declare.
    pub call-Served :
        (value : Text) (utility : Plugin) (rows : List StoredPlugin) (browser : Option Plugin)
        {registry : PluginRegistry} {response : PluginResponse}
        → run_registry utility
            (load_plugins_for_owner read_capabilities run in_time read_envelope rows browser)
          ≡ ok registry
        → call parse_url value registry ≡ ok response
        → (request : PluginRequest) × (from_api_url parse_url value ≡ ok request)
          × (Answers utility request response
              ⊎ (((plugin : Plugin) × (browser ≡ some plugin) × Answers plugin request response)
                  ⊎ Served rows request response))
    unfolding call Answers
    call-Served value utility rows browser {registry} made h =
        >>=-elim (from_api_url parse_url value) _ h λ request e h.
          >>=-elim (required unavailable (lookup request.plugin_id registry)) _ h λ plugin f h.
            let (i, origin) =
              IsKept-found (Origin read_capabilities run in_time read_envelope utility rows browser)
                registry request.plugin_id plugin
                (run_registry-IsKept
                  (Origin read_capabilities run in_time read_envelope utility rows browser) utility
                  _ (inl refl)
                  (load_plugins-Origin read_capabilities run in_time read_envelope utility rows
                    browser rows (λ row a. a))
                  made)
                (required-ok unavailable _ f) in
            (
              request,
              e,
              whose utility rows browser plugin request origin
                  (i, answered-ok (plugin.answer request) h),
            )
