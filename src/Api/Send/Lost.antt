-- ===== src/Api/Send/Lost.antt =====
-- What `Send` does when the network answers no request: libcurl leaves a status of 0.
use s3client.Common.{
  ℕ, ◌<◌, List, Bytes, Option, none, some, false, ltb, ◌==◌, Bool-cases, if◌then◌else◌, codes,
  same_text, ◌≡◌, refl, ◌∙◌, arith,
}
use s3client.Common.Dict.{Dict}
use mathlib.Core.Logic.{inl, inr}
use s3client.Text.Url.{to_lower, is_upper}
use s3client.Http.Client.{
  WebClient, Options, Network, Reply, Sink, write_buffer, file_at, send_request, receive,
  receive_body,
}
use s3client.Http.Uploads.{upload_data_from_buffer}
use s3client.Api.{
  SendParams, upload_buffer, Environment, S3Api, Error, not_signed, not_sent, Result, err, Action,
  continued,
}
use s3client.Api.Send.{
  config_with, config, request_headers, has_data, put_data, send_data, handle_error, by_client,
  send,
}

-- No request is answered.
unfoldable pub IsLost : {W : Type 0} → Network W → Type 0
IsLost {W = W} net = (w : W) (o : Options) → (net.perform w o).0.status ≡ 0

-- An action that throws.
unfoldable pub Fails : {W A : Type 0} → Result A × S3Api W → Type 0
Fails {W = W} r = (e : Error) × (next : S3Api W) × (r ≡ (err e, next))

module _ {W : Type 0} (env : Environment W) (lost : IsLost env.net) where
  receive_body_code :
      (sink : Sink) (blocks : List Bytes) (c : WebClient) (w : W)
      → (receive_body env.net sink blocks c w).0.response_code ≡ c.response_code
  unfolding receive_body
  receive_body_code write_buffer blocks c w = refl
  receive_body_code (file_at name offset) blocks c w = refl

  receive_code :
      (r : Reply) (c : WebClient) (w : W) → (receive env.net r c w).0.response_code ≡ r.status
  unfolding receive
  receive_code r c w = receive_body_code c.options.sink r.body_blocks _ w

  send_request_code : (c : WebClient) (w : W) → (send_request env.net c w).1.0.response_code ≡ 0
  unfolding send_request IsLost
  send_request_code c w =
      receive_code (env.net.perform w c.options).0 c (env.net.perform w c.options).1
      ∙ lost w c.options

  upload_code :
      (content : Bytes) (size : ℕ) (c : WebClient) (w : W)
      → 0 < size
      → (upload_data_from_buffer env.net content 0 size c w).1.0.response_code ≡ 0
  unfolding upload_data_from_buffer
  upload_code content size c w h =
      let some_bytes : (size == 0) ≡ false = ground arith in rw some_bytes (send_request_code _ w)

  handle_error-Fails : (s : S3Api W) → s.web.response_code ≡ 0 → Fails (handle_error env s)
  unfolding handle_error Fails
  handle_error-Fails s h = (not_sent, s, rw h refl)

  -- The request of a part: its bytes or, if there are none, a request without a body.
  part_data_status :
      {B : Type 0} (p : SendParams) (content : Bytes) (size : ℕ) (s : S3Api W) (k : Action W B)
      → p.method ≡ codes "PUT"
      → p.upload_data ≡ upload_buffer (record { size = size; content = some content })
      → ((t : S3Api W) → t.web.response_code ≡ 0 → Fails (k t))
      → Fails (
          continued
            ((if has_data p.upload_data
                then send_data env p
                else by_client env (send_request env.net))
              s)
            (λ done. k))
  unfolding has_data send_data put_data to_lower is_upper same_text
  part_data_status p content size s k m d h = elim (Bool-cases (ltb 0 size)) [
    | inl e ↦ rw (m, d, e) (h _ (upload_code content size s.web s.world (ground arith)))
    | inr e ↦ rw (d, e) (h _ (send_request_code s.web s.world))
  ]

  config-Fails_or :
      (signed : Option (Dict Bytes)) (p : SendParams) (s : S3Api W) (k : Action W WebClient)
      → ((t : S3Api W) → Fails (k t))
      → Fails (continued (config_with env signed p s) (λ done. k))
  unfolding config_with Fails
  config-Fails_or none p s k h = (not_signed, s, refl)
  config-Fails_or (some signed) p s k h = h _

  pub then-Fails :
      {A B : Type 0} (r : Result A × S3Api W) (f : A → Action W B) → Fails r → Fails (continued r f)
  unfolding Fails
  then-Fails r f (e, next, h) = (e, next, rw h refl)

  -- If no request is answered, `Send` of the bytes of a part throws, whether or not it can be signed.
  pub send-Fails :
      (p : SendParams) (content : Bytes) (size : ℕ) (s : S3Api W)
      → p.method ≡ codes "PUT"
      → p.upload_data ≡ upload_buffer (record { size = size; content = some content })
      → Fails (send env p s)
  unfolding send config
  send-Fails p content size s m d = config-Fails_or (request_headers env s p) p s _ (λ t.
      part_data_status p content size t _ m d
        (λ u code. then-Fails (handle_error env u) _ (handle_error-Fails u code)))
