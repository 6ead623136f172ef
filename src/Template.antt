-- ===== src/Template.antt =====
-- crates/qdrust-core/src/template.rs: the native template and its validation.
pub mod Meaning
use qdrust.Base.{
  ℕ, suc, ◌+◌, ◌==◌, leb, ltb, ◌-◌, Text, codes, text_eq, is_blank, is_empty, Bool, true, false,
  not, ◌&&◌, ◌||◌, any, map, List, [], ◌∷◌, Result, ok, err, Option, ensure, ◌>>=◌, ◌>>◌,
  if◌then◌else◌,
}
use qdrust.Json.{Value}

pub data RequestBody : Type 0 where
  json : Value → RequestBody
  text : Text → RequestBody
  form : List (Text × Text) → RequestBody

pub record RequestStep : Type 0 where
  pub name : Text
  pub method : Text
  pub url : Text
  pub headers : List (Text × Text)
  pub query : List (Text × Text)
  pub body : Option RequestBody

pub data ExtractSource : Type 0 where
  from_json from_text from_header from_status : ExtractSource

pub record ExtractStep : Type 0 where
  pub name : Text
  pub source : ExtractSource
  pub selector : Text
  pub target : Text
  pub required : Bool

mutual
  pub data Step : Type 0 where
    request_step : RequestStep → Step
    extract_step : ExtractStep → Step
    if_step : Text → Steps → Steps → Step
    for_each : Text → Text → Steps → Step
    delay : ℕ → Step

  pub data Steps : Type 0 where
    no_steps : Steps
    step : Step → Steps → Steps

pub record TemplateDefinition : Type 0 where
  pub version : ℕ
  pub name : Text
  pub variables : List (Text × Value)
  pub steps : Steps

pub data TemplateError : Type 0 where
  unsupported_version : TemplateError
  template_name_empty : TemplateError
  no_step : TemplateError
  too_deep : TemplateError
  too_many_steps : TemplateError
  request_name_empty : TemplateError
  request_url_empty : TemplateError
  unsupported_method : Text → TemplateError
  extract_name_empty : TemplateError
  extract_target_empty : TemplateError
  extract_selector_empty : TemplateError
  condition_empty : TemplateError
  item_empty : TemplateError
  items_empty : TemplateError
  delay_too_long : TemplateError

unfoldable pub uppercase : ℕ → ℕ
uppercase c = if leb 97 c && leb c 122 then c - 32 else c

unfoldable pub is_supported_method : Text → Bool
unfolding uppercase
is_supported_method m = any (text_eq (map uppercase m)) (
    codes "GET"
    ∷ codes "POST"
    ∷ codes "PUT"
    ∷ codes "PATCH"
    ∷ codes "DELETE"
    ∷ codes "HEAD"
    ∷ codes "OPTIONS"
    ∷ [])

unfoldable pub is_status : ExtractSource → Bool
is_status from_status = true
is_status _ = false

-- What the arms of `validate_steps` ask of a step before they go into its blocks.
unfoldable pub check_step : Step → Result TemplateError (Unit {0})
unfolding is_supported_method is_status
check_step (request_step r) = do
  ensure (not (is_blank r.name)) request_name_empty
  ensure (not (is_blank r.url)) request_url_empty
  ensure (is_supported_method r.method) (unsupported_method r.method)
check_step (extract_step x) = do
  ensure (not (is_blank x.name)) extract_name_empty
  ensure (not (is_blank x.target)) extract_target_empty
  ensure (is_status x.source || not (is_empty x.selector)) extract_selector_empty
check_step (if_step condition then_steps otherwise) =
    ensure (not (is_blank condition)) condition_empty
check_step (for_each item items steps) = do
  ensure (not (is_blank item)) item_empty
  ensure (not (is_blank items)) items_empty
check_step (delay milliseconds) = ensure (leb milliseconds 300000) delay_too_long

unfoldable pub step_count : Steps → ℕ
step_count no_steps = 0
step_count (step s rest) = suc (step_count rest)

-- The tests at the head of `validate_steps`, which give the new count.
unfoldable pub open_steps : ℕ → Steps → ℕ → Result TemplateError ℕ
unfolding step_count
open_steps depth steps count = do
  ensure (leb depth 16) too_deep
  ensure (leb (count + step_count steps) 1000) too_many_steps
  ok (count + step_count steps)

unfoldable mutual
  unfolding check_step open_steps

  -- The loop of `validate_steps`.
  pub validate_each : ℕ → Steps → ℕ → Result TemplateError ℕ
  validate_each depth no_steps count = ok count
  validate_each depth (step s rest) count = do
    check_step s
    count ← validate_nested depth s count
    validate_each depth rest count

  pub validate_nested : ℕ → Step → ℕ → Result TemplateError ℕ
  validate_nested depth (if_step condition then_steps otherwise) count = do
    count ← open_steps (suc depth) then_steps count
    count ← validate_each (suc depth) then_steps count
    count ← open_steps (suc depth) otherwise count
    validate_each (suc depth) otherwise count
  validate_nested depth (for_each item items steps) count = do
    count ← open_steps (suc depth) steps count
    validate_each (suc depth) steps count
  validate_nested depth (request_step r) count = ok count
  validate_nested depth (extract_step x) count = ok count
  validate_nested depth (delay milliseconds) count = ok count

unfoldable pub validate_steps : ℕ → Steps → ℕ → Result TemplateError ℕ
unfolding validate_each
validate_steps depth steps count = do
  count ← open_steps depth steps count
  validate_each depth steps count

unfoldable pub validate : TemplateDefinition → Result TemplateError (Unit {0})
unfolding validate_steps step_count
validate t = do
  ensure (t.version == 1) unsupported_version
  ensure (not (is_blank t.name)) template_name_empty
  ensure (ltb 0 (step_count t.steps)) no_step
  count ← validate_steps 0 t.steps 0
  ok tt
