-- ===== src/Tests/Templates.antt =====
-- A template with a branch.
use qdrust.Base.{is_blank, codes, none, [], ok, ◌≡◌, ◌↔◌, refl}
use qdrust.Template.{
  TemplateDefinition, Step, step, no_steps, request_step, if_step, delay, validate,
}
use qdrust.Tests.Outsides.{simple, limits, idle}
use qdrust.Executor.Native.{execute_template}
use qdrust.Executor.Native.Promises.{Outcome, execute_template-Outcome}
use qdrust.Template.Meaning.{Acceptable, validate-iff-Acceptable}

abbrev fetch : Step
fetch = request_step (record {
  name = codes "fetch";
  method = codes "get";
  url = codes "https://host/";
  headers = [];
  query = [];
  body = none;
})

abbrev template : TemplateDefinition
template = record {
  version = 1;
  name = codes "check in";
  variables = [];
  steps =
      step fetch (step (if_step (codes "ready") (step (delay 1000) no_steps) no_steps) no_steps);
}

validate-iff-Acceptable_example : (validate template ≡ ok tt) ↔ Acceptable template
validate-iff-Acceptable_example = validate-iff-Acceptable template

template-valid : validate template ≡ ok tt
unfolding validate is_blank
template-valid = refl

execute_template-Outcome_example :
    Outcome simple limits template idle (execute_template simple limits template idle)
execute_template-Outcome_example =
    execute_template-Outcome simple limits template idle template-valid
