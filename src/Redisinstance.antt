-- ===== src/Redisinstance.antt =====
-- redisinstance/redisinstance.go: the HTTP handler that tells the instance of a host.
use cf_redis_broker.Base.{ℕ, String, ◌==◌, if◌then◌else◌, List, [], ◌∷◌, Result, ok, err}

-- A reply, as the recorder of `net/http` sees it. `http.Error` sets the content type of plain text,
-- and ends the text with a newline.
pub record Reply : Type 0 where
  pub status : ℕ
  pub content_type : String
  pub body : String

abbrev pub http_error : ℕ → Reply
http_error status = record {
  status = status;
  content_type = "text/plain; charset=utf-8";
  body = "\n";
}

-- The body is that of the error, and nothing is written behind it.
abbrev pub reply_with : Result String → Reply
reply_with (ok payload) = record { status = 200; content_type = "application/json"; body = payload }
reply_with (err e) = http_error 500

-- `id_for_host` is the finder, `marshal` encodes the response as JSON, and the list holds the values
-- of the query's parameter "host".
module _ (id_for_host : String → String) (marshal : String → Result String) where
  unfoldable pub handle : List String → Reply
  handle [] = http_error 400
  handle (host ∷ _) =
      if id_for_host host == "" then http_error 404 else reply_with (marshal (id_for_host host))
