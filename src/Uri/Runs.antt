-- ===== src/Uri/Runs.antt =====
-- Runs of the printing and creating of URIs.
use server_framework_learnin.Prelude.{◌≡◌, refl, [], some, codes, done, arith}
use server_framework_learnin.Uri.{Uri, create, to_string, get_path}
use server_framework_learnin.Uri.Print.{places, create-to_string}

abbrev site : Uri
site = record {
  scheme = codes "http";
  user_info = codes "me";
  host = codes "sylar.top";
  path = [];
  query = codes "a=1";
  fragment = [];
  port = 8020;
}

create-to_string_example :
    create (λ t. some (places site)) (to_string site)
    ≡ done (some (record site { path = get_path site }))
create-to_string_example = create-to_string (λ t. some (places site)) site (omega arith) refl
