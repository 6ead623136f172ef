-- ===== src/Tests.antt =====
-- A document, a template and a run table on which the results are tried.
pub mod Programs
pub mod Outsides
pub mod Loops
pub mod Queues
pub mod Templates
pub mod Guarded
pub mod Logins
pub mod Entries
pub mod Imports
pub mod Tellings
pub mod Histories
pub mod Catalogues
pub mod Workers
pub mod Codecs
pub mod Notepads
pub mod Registries
pub mod Masks
use qdrust.Base.{Text, codes, String, Bool, true, none, [], ◌∷◌, List}
use qdrust.Json.{no_fields}
use qdrust.Har.{Entry}

-- An enabled `GET` entry.
abbrev pub get : String → Entry
get url = record {
  checked = true;
  comment = none;
  request = record {
    method = codes "GET";
    url = codes url;
    headers = [];
    cookies = [];
    post_data = none;
    extensions = no_fields;
  };
  success_asserts = [];
  failed_asserts = [];
  extract_variables = [];
  extensions = no_fields;
}

-- An entry that is switched off, a branch with an else, and a request behind it.
abbrev pub entries : List Entry
entries =
    record (get "https://host/off") { checked = Bool.false }
    ∷ get "{% if ready %}"
    ∷ get "https://host/a"
    ∷ get "{% else %}"
    ∷ get "https://host/b"
    ∷ get "{% endif %}"
    ∷ get "https://host/c"
    ∷ []
