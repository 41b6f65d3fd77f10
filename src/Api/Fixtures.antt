-- ===== src/Api/Fixtures.antt =====
-- A network that answers as it is told, and an instance without credentials on it.
use s3client.Common.{ℕ, zero, suc, [], ◌∷◌, Bytes, none, true, false, codes}
use s3client.Sign.{ℤ}
use s3client.Xml.Dom.{tree_dom}
use s3client.Http.Client.{Reply, CurlCode, read_buffer, write_buffer, Network}
use s3client.Api.{Environment, S3Api}

-- The world is the number of requests that are still lost.
abbrev pub answer : ℕ → Bytes → Reply
answer zero body = record {
  result = CurlCode.ok;
  error = [];
  status = 200;
  header_blocks = codes "Etag: \"e\"" ∷ [];
  body_blocks = body ∷ [];
}
answer (suc left) body = record {
  result = CurlCode.failed;
  error = codes "timeout";
  status = 0;
  header_blocks = [];
  body_blocks = [];
}

abbrev pub one_fewer : ℕ → ℕ
one_fewer zero = zero
one_fewer (suc n) = n

abbrev pub network : Bytes → Network ℕ
network body = record {
  perform = λ w o. (answer w body, one_fewer w);
  file_size = λ w name. 4;
  can_open = λ w name. true;
  map_file = λ w name offset size. none;
  write_file = λ w name offset blocks. w;
}

abbrev pub lost_network : Network ℕ
lost_network = record {
  perform = λ w o. (answer 1 [], w);
  file_size = λ w name. 4;
  can_open = λ w name. true;
  map_file = λ w name offset size. none;
  write_file = λ w name offset blocks. w;
}

abbrev pub on_network : Network ℕ → Environment ℕ
on_network net = record {
  net = net;
  dom = tree_dom (λ xml. none);
  parse_url = λ url. record { proto = codes "https"; host = url; port = ℤ.pos 0 };
  now = record { time_stamp = codes "20260101T000000Z"; date_stamp = codes "20260101" };
  debug = false;
}

abbrev pub fresh : ℕ → S3Api ℕ
fresh lost = record {
  access = [];
  secret = [];
  endpoint = codes "https://s3.example";
  signing_endpoint = codes "https://s3.example";
  web = record {
    options = record {
      url = [];
      http_header = [];
      upload = false;
      no_body = false;
      http_get = false;
      custom_request = none;
      infile_size = 0;
      post_fields = [];
      post_field_size = 0;
      source = read_buffer;
      sink = write_buffer;
      verify_peer = true;
      verify_host = true;
    };
    endpoint = [];
    path = [];
    headers = [];
    params = [];
    method = [];
    response_code = 0;
    url_encoded_post_data = [];
    written = record { offset = 0; content = [] };
    header_buffer = [];
    error_buffer = [];
  };
  world = lost;
  retries = 0;
}
