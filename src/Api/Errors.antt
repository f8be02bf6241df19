-- ===== src/Api/Errors.antt =====
-- The answers of broker/app/core/errors.py: which handler takes an exception, and the body that it
-- writes. A `detail` is a Python dict, a list of keys with their values; what a value is and what
-- `str` makes of it are parameters.
pub mod Bodies
use smart_classroom.Prelude.{
  ℕ, Bool, true, false, List, [], ◌∷◌, Option, none, some, String, str_eq, if◌then◌else◌,
}

module _ {V : Type 0} where
  -- `d.get(key)`, and the dict without the key: the two halves of `d.pop(key, default)`.
  unfoldable pub get : String → List (String × V) → Option V
  get key [] = none
  get key (item ∷ rest) =
      let later = get key rest in if str_eq item.0 key then some item.1 else later

  unfoldable pub without : String → List (String × V) → List (String × V)
  without key [] = []
  without key (item ∷ rest) =
      let later = without key rest in if str_eq item.0 key then later else item ∷ later

  -- `d or None`
  abbrev pub or_none : List (String × V) → Option (List (String × V))
  or_none [] = none
  or_none (item ∷ rest) = some (item ∷ rest)

pub record ErrorResponse (V : Type 0) : Type 0 where
  pub error : String
  pub message : String
  pub request_id : Option String
  pub detail : Option (List (String × V))

-- `HTTPException.detail`: a dict, or anything else by its `str`.
pub data HttpDetail (V : Type 0) : Type 0 where
  fields : List (String × V) → HttpDetail V
  text : String → HttpDetail V

-- What a route may raise. Of the exceptions without a handler of their own nothing is kept.
pub data Exception (V : Type 0) : Type 0 where
  http_exception : (status_code : ℕ) → HttpDetail V → Exception V
  request_validation : (errors : V) → Exception V
  reservation_conflict : (message : String) → Exception V
  reservation_quota invalid_reservation_window invalid_connect_window :
      (message : String) (detail : List (String × V)) → Exception V
  other : Exception V

pub record Answer (V : Type 0) : Type 0 where
  pub status_code : ℕ
  pub content : ErrorResponse V

module _ {V : Type 0} (str : V → String) where
  -- `str(detail.pop(key, default))`
  unfoldable pub pop_text : String → String → List (String × V) → String
  pop_text key default d = elim (get key d) [ none ↦ default | some v ↦ str v ]

  abbrev pub or_code : String → String → String
  or_code code message = if str_eq message "" then code else message

  -- The body of `_http_exc`; `rid` is the X-Request-ID header of the request.
  unfoldable pub http_body : Option String → HttpDetail V → ErrorResponse V
  http_body rid (fields d) =
      let error_code = pop_text "error" "http_error" d in
      let rest = without "error" d in
      record {
        error = error_code;
        message = or_code error_code (pop_text "message" "" rest);
        request_id = rid;
        detail = or_none (without "message" rest);
      }
  http_body rid (text s) = record {
    error = "http_error";
    message = s;
    request_id = rid;
    detail = none;
  }

  -- The handlers that `register_error_handlers` puts in place.
  unfoldable pub handle_error : Option String → Exception V → Answer V
  handle_error rid (http_exception code detail) = record {
    status_code = code;
    content = http_body rid detail;
  }
  handle_error rid (request_validation errors) = record {
    status_code = 422;
    content = record {
      error = "validation_error";
      message = "요청 검증 실패";
      request_id = rid;
      detail = some (("errors", errors) ∷ []);
    };
  }
  handle_error rid (reservation_conflict message) = record {
    status_code = 409;
    content = record {
      error = "reservation_conflict";
      message = message;
      request_id = rid;
      detail = none;
    };
  }
  handle_error rid (reservation_quota message detail) = record {
    status_code = 429;
    content = record {
      error = "reservation_quota_exceeded";
      message = message;
      request_id = rid;
      detail = or_none detail;
    };
  }
  handle_error rid (invalid_reservation_window message detail) = record {
    status_code = 422;
    content = record {
      error = "invalid_reservation_window";
      message = message;
      request_id = rid;
      detail = or_none detail;
    };
  }
  handle_error rid (invalid_connect_window message detail) = record {
    status_code = 422;
    content = record {
      error = "invalid_connect_window";
      message = message;
      request_id = rid;
      detail = or_none detail;
    };
  }
  -- The handler of `Exception`: Starlette's ServerErrorMiddleware runs it, outside the middlewares that
  -- create_app adds, so this answer gets no header X-Request-ID.
  handle_error rid other = record {
    status_code = 500;
    content = record {
      error = "internal_error";
      message = "서버 내부 오류";
      request_id = rid;
      detail = none;
    };
  }
