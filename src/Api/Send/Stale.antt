-- ===== src/Api/Send/Stale.antt =====
-- What one request leaves for the next in the web client that they share.
use s3client.Common.{Bytes, Option, none, some, true, ◌≡◌, ap, ◌∙◌, sym}
use s3client.Common.Dict.{Dict}
use s3client.Http.Client.{
  WebClient, set_url, build_url, set_endpoint, set_path, set_method, set_req_parameters,
  set_headers, set_post_data, clear_buffers, reset_rw_functions,
}
use s3client.Http.Client.Method.{is_custom, is_plain, sets_custom, keeps_custom}
use s3client.Api.{SendParams, Environment, S3Api, Result, ok}
use s3client.Api.Send.{clear, configured, request_headers, config_with, config}

configured_sets :
    (endpoint : Bytes) (p : SendParams) (signed : Dict Bytes) (c : WebClient)
    → is_custom p.method ≡ true
    → (configured endpoint p signed c).options.custom_request ≡ some p.method
unfolding configured set_headers set_req_parameters set_method set_path set_endpoint build_url
    set_url clear set_post_data clear_buffers reset_rw_functions
configured_sets endpoint p signed c h = sets_custom p.method c.url_encoded_post_data 0 _ h

configured_keeps :
    (endpoint : Bytes) (p : SendParams) (signed : Dict Bytes) (c : WebClient)
    → is_plain p.method ≡ true
    → (configured endpoint p signed c).options.custom_request ≡ c.options.custom_request
unfolding configured set_headers set_req_parameters set_method set_path set_endpoint build_url
    set_url clear set_post_data clear_buffers reset_rw_functions
configured_keeps endpoint p signed c h = keeps_custom p.method c.url_encoded_post_data 0 _ h

module _ {W : Type 0} (env : Environment W) where
  config_with_some :
      (signed : Option (Dict Bytes)) (p : SendParams) (s t : S3Api W)
      → config_with env signed p s ≡ (ok tt, t)
      → (h : Dict Bytes) × (t.web ≡ configured s.endpoint p h s.web)
  unfolding config_with
  config_with_some none p s t h = absurd (cc (ap (λ (r : Result (Unit {0}) × S3Api W). r.0) h))
  config_with_some (some signed) p s t h =
      (signed, ap (λ (r : Result (Unit {0}) × S3Api W). r.1.web) (sym h))

  -- What `Config` leaves when it does not throw.
  configured_of :
      (p : SendParams) (s t : S3Api W)
      → config env p s ≡ (ok tt, t)
      → (signed : Dict Bytes) × (t.web ≡ configured s.endpoint p signed s.web)
  unfolding config
  configured_of p s t h = config_with_some (request_headers env s p) p s t h

  -- A request that is configured as HEAD, DELETE or POST leaves its name to libcurl, and a GET or a PUT
  -- that the same web client is configured for next still has that name: `SetMethod` does not take it
  -- back, and `Clear` does not either.
  pub stale_method :
      (before after : SendParams) (s t u : S3Api W)
      → config env before s ≡ (ok tt, t)
      → config env after t ≡ (ok tt, u)
      → is_custom before.method ≡ true
      → is_plain after.method ≡ true
      → u.web.options.custom_request ≡ some before.method
  stale_method before after s t u h k hb ha =
      let (signed, e) = configured_of before s t h in
      let (resigned, f) = configured_of after t u k in
      ap (λ (c : WebClient). c.options.custom_request) f
      ∙ configured_keeps t.endpoint after resigned t.web ha
      ∙ ap (λ (c : WebClient). c.options.custom_request) e
      ∙ configured_sets s.endpoint before signed s.web hb
