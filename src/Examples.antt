-- ===== src/Examples.antt =====
-- The handler of examples/log.rs and examples/openssl.rs, which prints what passes through the
-- proxy.
pub mod Mains
pub mod Interception
pub mod Programs
use hudsucker.Prelude.{refl, none, some, List, [], ◌∷◌, ◌++◌}
use hudsucker.Platform.{Platform, BodyRequest, BodyResponse}
use hudsucker.Handler.{
  HttpHandler, WebSocketHandler, request, default_handle_error, default_should_intercept,
}
use hudsucker.Handler.Messages.{PassesMessages}
use hudsucker.Internal.Transparent.{IsTransparent}

module _ (p : Platform) where
  -- What is printed by `println!`, in order.
  pub data Printed : Type 0 where
    printed_request : BodyRequest p → Printed
    printed_response : BodyResponse p → Printed
    printed_message : p.Message → Printed

  -- `LogHandler`, with what it has printed as its state.
  abbrev pub log_http : HttpHandler p
  log_http = record {
    State = List Printed;
    handle_request = λ out _ctx req. (out ++ (printed_request req ∷ []), request req);
    handle_response = λ out _ctx res. (out ++ (printed_response res ∷ []), res);
    handle_error = default_handle_error p;
    should_intercept = default_should_intercept p;
  }

  abbrev pub log_websocket : WebSocketHandler p
  log_websocket = record {
    State = List Printed;
    handle_message = λ out _ctx msg. (out ++ (printed_message msg ∷ []), some msg);
    own_handle_websocket = none;
  }

  pub log_http-IsTransparent : IsTransparent log_http
  log_http-IsTransparent = record {
    passes_request = λ out ctx req. refl;
    passes_response = λ out ctx res. refl;
    default_error = λ out ctx e. refl;
    logs_error = λ out ctx e. refl;
    intercepts = λ out ctx req. refl;
  }

  pub log_websocket-PassesMessages : PassesMessages log_websocket
  log_websocket-PassesMessages out ctx m = refl
