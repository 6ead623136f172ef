-- ===== src/Notices/Deliver.antt =====
-- `deliver` of crates/qdrust-server/src/delivery.rs: one message over one channel, by the channel's
-- kind. The guarded HTTP client, the mail client of the scheduler and the push services are
-- parameters, which pass a state of the world on.
use qdrust.Base.{
  Text, text_eq, codes, Bool, is_empty, or_else, Option, none, some, List, [], ◌∷◌, ◌++◌, Result,
  ok, err, if◌then◌else◌,
}
use qdrust.Json.{Value, Fields, object, no_fields, field, get_field, as_str}

pub data Body : Type 0 where
  json : Value → Body
  text : Text → Body

abbrev pub Sent : Type 0 → Type 0
Sent W = Result Text (Unit {0}) × W

-- What comes of a request: the guard lets no client be built, and says why, or an answer comes back
-- that is a success or not.
pub data Reply : Type 0 where
  refused : Text → Reply
  failed succeeded : Reply

-- What sends: `Method::parse`, a request through the guard, `normalize_recipient`, the mail client,
-- and push_channels.rs.
pub record Outbox (W : Type 0) : Type 0 where
  pub is_http_method : Text → Bool
  pub request : Text → Text → List (Text × Text) → Body → W → Reply × W
  pub normalize_recipient : Text → Option Text
  pub send_mail : Text → Option Text → Text → Text → W → Sent W
  pub is_push_channel : Text → Bool
  pub push_to_channel : Text → Value → Text → Text → W → Sent W

pub record Message : Type 0 where
  pub title : Text
  pub body : Text
  pub payload : Value

-- `Value::get`, and `as_str` of what it finds.
get : Text → Value → Option Value
unfolding get_field
get k (object fs) = get_field k fs
get k v = none

str_of : Option Value → Option Text
unfolding as_str
str_of none = none
str_of (some v) = as_str v

text_at : Text → Value → Option Text
unfolding get str_of
text_at k config = str_of (get k config)

fields_of : Option Value → Fields
fields_of (some (object fs)) = fs
fields_of _ = no_fields

rendered_header : Text → Option Text → (Text → Text) → List (Text × Text)
rendered_header name none render = []
rendered_header name (some value) render = (name, render value) ∷ []

rendered_headers : Fields → (Text → Text) → List (Text × Text)
unfolding rendered_header as_str
rendered_headers no_fields render = []
rendered_headers (field name value fs) render =
    rendered_header name (as_str value) render ++ rendered_headers fs render

module _ {W : Type 0} (o : Outbox W) where
  -- An answer that is no success is told by the context that the caller adds.
  settled : Text → Reply × W → Sent W
  settled context (refused e, w) = (err e, w)
  settled context (failed, w) = (err context, w)
  settled context (succeeded, w) = (ok tt, w)

  deliver_webhook : Option Text → Message → W → Sent W
  unfolding settled
  deliver_webhook none message w = (err (codes "webhook channel requires a url"), w)
  deliver_webhook (some url) message w =
      settled (codes "webhook delivery failed")
        (o.request (codes "POST") url [] (json message.payload) w)

  deliver_custom : Option Text → Value → Message → (Text → Text) → W → Sent W
  unfolding settled text_at rendered_headers fields_of get
  deliver_custom none config message render w =
      (err (codes "custom HTTP channel requires a url"), w)
  deliver_custom (some url) config message render w =
      let method = or_else (text_at (codes "method") config) (codes "POST") in
      let body = or_else (text_at (codes "body") config) [] in
      let headers = rendered_headers (fields_of (get (codes "headers") config)) render in
      if o.is_http_method method
      then settled (codes "custom HTTP delivery failed") (
          o.request method (render url) headers
            (if is_empty body then json message.payload else text (render body)) w)
      else (err (codes "custom HTTP channel has an invalid method: " ++ method), w)

  recipient : Option Text → Option Text
  recipient none = none
  recipient (some to) = o.normalize_recipient to

  deliver_email : Option Text → Option Text → Message → W → Sent W
  deliver_email none from message w = (err (codes "email channel requires a valid recipient"), w)
  deliver_email (some to) from message w = o.send_mail to from message.title message.body w

  unfoldable pub deliver : Text → Value → Message → (Text → Text) → W → Sent W
  unfolding deliver_webhook deliver_custom deliver_email recipient text_at
  deliver kind config message render w =
      if text_eq kind (codes "webhook")
      then deliver_webhook (text_at (codes "url") config) message w
      else if text_eq kind (codes "custom_http")
      then deliver_custom (text_at (codes "url") config) config message render w
      else if text_eq kind (codes "email")
      then deliver_email (recipient (text_at (codes "to") config)) (text_at (codes "from") config)
          message w
      else if o.is_push_channel kind
      then o.push_to_channel kind config message.title message.body w
      else (err (codes "unsupported notification channel kind: " ++ kind), w)
