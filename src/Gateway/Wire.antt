-- ===== src/Gateway/Wire.antt =====
-- What the gateway's policy reads of a request, and what it answers.
use docker_map.Common.{List, Option, Text}

pub data Method : Type 0 where
  get post put patch delete connect head options trace extension : Method

-- The header names that the policy asks for, and all others.
pub data HeaderName : Type 0 where
  content_length transfer_encoding upgrade expect trailer connection other : HeaderName

-- What the policy reads of a parsed `http::Request`.
pub record Request : Type 0 where
  pub method : Method
  pub scheme : Option Text
  pub authority : Option Text
  pub headers : List HeaderName
  pub path_and_query : Option Text

pub data Deny : Type 0 where
  method framing target query : Deny

-- `Result<String, Deny>`, and the panic of a slice whose start lies behind its end.
pub data Verdict : Type 0 where
  allowed : Text → Verdict
  denied : Deny → Verdict
  panicked : Verdict
