-- ===== src/Har.antt =====
-- crates/qdrust-core/src/qd_har.rs: the entries of a QD HAR and the blocks of a program. The
-- compiler of entries to blocks is in `Compile`, the grammar that it decides in `Grammar`,
-- and what holds of a program in `Meaning`.
pub mod Control
pub mod Validate
pub mod Compile
pub mod Grammar
pub mod Meaning
pub mod Normalize
use qdrust.Base.{Text, Bool, Option, List}
use qdrust.Json.{Fields}

pub record NameValue : Type 0 where
  pub name : Text
  pub value : Text
  pub checked : Bool
  pub extensions : Fields

pub record PostData : Type 0 where
  pub mime_type : Option Text
  pub text : Option Text
  pub extensions : Fields

pub record Request : Type 0 where
  pub method : Text
  pub url : Text
  pub headers : List NameValue
  pub cookies : List NameValue
  pub post_data : Option PostData
  pub extensions : Fields

pub record Rule : Type 0 where
  pub re : Text
  pub source : Text
  pub extensions : Fields

pub record ExtractRule : Type 0 where
  pub name : Text
  pub rule : Rule

pub record Entry : Type 0 where
  pub checked : Bool
  pub comment : Option Text
  pub request : Request
  pub success_asserts : List Rule
  pub failed_asserts : List Rule
  pub extract_variables : List ExtractRule
  pub extensions : Fields

mutual
  pub data Block : Type 0 where
    request : Entry → Block
    for_block : Text → Text → Blocks → Block
    while_block : Text → Blocks → Block
    if_block : Text → Blocks → Blocks → Block

  pub data Blocks : Type 0 where
    no_blocks : Blocks
    block : Block → Blocks → Blocks
