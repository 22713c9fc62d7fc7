-- ===== src/Rules/Tests.antt =====
-- The theorems on the response rules at a schema.
use gofi.Prelude.{ℕ, ◌≡◌, refl, none, some, [], ◌∷◌, String, codes}
use gofi.Store.{Items, get, set}
use gofi.Rules.{RuleDef, SchemaRules, set_resps, resp_content, get_resp_rules_by_code}
use gofi.Rules.Statuses.{status_field}
use gofi.Rules.Responses.{class_errors_ignored}

abbrev responses : Items ℕ
responses = (codes "Created", 1) ∷ (codes "Success", 2) ∷ (codes "Redirect", 3) ∷ []

created : get_resp_rules_by_code responses 201 ≡ some (codes "Created", 1)
unfolding get_resp_rules_by_code status_field get
created = refl

accepted : get_resp_rules_by_code responses 202 ≡ some (codes "Success", 2)
unfolding get_resp_rules_by_code status_field get
accepted = refl

-- A client error gets the rules of a redirect.
not_found : get_resp_rules_by_code responses 404 ≡ some (codes "Redirect", 3)
unfolding get_resp_rules_by_code status_field get
not_found = refl

class_errors_ignored_example :
    (get_resp_rules_by_code {R = ℕ} ((codes "ClientError", 7) ∷ []) 404 ≡ none)
    × (get_resp_rules_by_code {R = ℕ} ((codes "ServerError", 7) ∷ []) 404 ≡ none)
class_errors_ignored_example = class_errors_ignored 7 404

abbrev only : String → Items ℕ
only field = (codes field, 7) ∷ []

abbrev headers_rules : RuleDef
headers_rules = record {
  field = codes "headers";
  def_str = [];
  rules = [];
  properties = (codes "content-type", codes "text/html") ∷ [];
}

abbrev no_rules : SchemaRules
no_rules = record { req = []; responses = [] }

html : resp_content (set_resps (codes "Ok") (some headers_rules) no_rules) 200 ≡ codes "text/html"
unfolding resp_content set_resps set status_field
html = refl
