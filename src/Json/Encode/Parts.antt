-- ===== src/Json/Encode/Parts.antt =====
-- bodyparser_json.go, `encodeFieldValue`: texts that are put together from their parts.
use gofi.Prelude.{
  ℕ, ◌≡◌, refl, sym, ap, ◌∙◌, subst, Bool, true, false, some, [], ◌∷◌, ◌++◌, append_assoc, arith,
  if◌then◌else◌, Bytes,
}
use gofi.Prelude.{codes}
use gofi.Errors.{escape}
use gofi.Json.Encode.Runes.{valid_from, valid_from-All}
use gofi.Errors.Json.{read_string, read_string-escape, push}
use gofi.Json.Encode.{Encoded, written, rejected, broke, then_write, encode_string, comma, key_text}
use gofi.Json.Encode.Grammar.{
  IsText, text, IsJson, IsElements, no_elements, elements, IsTail, no_tail, tail, IsMembers,
  no_members, members, IsTailOfMembers, no_members_left, next_members, IsPlain, CleanName,
  CleanText,
}

-- A text that was written satisfies P.
abbrev pub Yields : (Bytes → Type 0) → Encoded → Type 0
Yields P (written b) = P b
Yields P _ = Unit

pub then_write-Yields :
    (P Q R : Bytes → Type 0)
    → ((a b : Bytes) → P a → Q b → R (a ++ b))
    → (e f : Encoded) → Yields P e
    → Yields Q f
    → Yields R (then_write e f)
then_write-Yields P Q R j (written a) (written b) he hf = j a b he hf
then_write-Yields P Q R j (written a) rejected he hf = tt
then_write-Yields P Q R j (written a) broke he hf = tt
then_write-Yields P Q R j rejected f he hf = tt
then_write-Yields P Q R j broke f he hf = tt

pub if-Yields :
    (P : Bytes → Type 0) (b : Bool) (e f : Encoded)
    → Yields P e
    → Yields P f
    → Yields P (if b then e else f)
if-Yields P true e f he hf = he
if-Yields P false e f he hf = hf

pub encode_string-IsText : (s : Bytes) → CleanText s → IsText (encode_string s)
unfolding encode_string
encode_string-IsText s h =
    text (escape (valid_from 0 s) ++ b'"' ∷ []) (valid_from 0 s)
      (read_string-escape (valid_from 0 s) [] (valid_from-All s 0 h))

read-plain :
    (c : ℕ) (s : Bytes) → IsPlain c → read_string false (c ∷ s) ≡ push c (read_string false s)
unfolding read_string
read-plain c s h = ground arith

read_string-name :
    (n rest : Bytes) → CleanName n → read_string false (n ++ b'"' ∷ rest) ≡ some (n, rest)
unfolding read_string
read_string-name [] rest h = refl
read_string-name (c ∷ n) rest (p, h) =
    read-plain c (n ++ b'"' ∷ rest) p ∙ ap (push c) (read_string-name n rest h)

-- The key in front of a colon.
abbrev quoted_name : Bytes → Bytes
quoted_name n = b'"' ∷ (n ++ b'"' ∷ [])

pub quoted_name-IsText : (n : Bytes) → CleanName n → IsText (quoted_name n)
quoted_name-IsText n h = text (n ++ b'"' ∷ []) n (read_string-name n [] h)

abbrev pub Elements : Bool → Bytes → Type 0
Elements true = IsElements
Elements false = IsTail

abbrev pub Members : Bool → Bytes → Type 0
Members true = IsMembers
Members false = IsTailOfMembers

pub Elements-end : (first : Bool) → Elements first []
Elements-end true = no_elements
Elements-end false = no_tail

pub Members-end : (first : Bool) → Members first []
Members-end true = no_members
Members-end false = no_members_left

Elements-next :
    (first : Bool) (b t : Bytes) → IsJson b → IsTail t → Elements first (comma first ++ (b ++ t))
Elements-next true b t hb ht = elements hb ht
Elements-next false b t hb ht = tail hb ht

Members-next :
    (first : Bool) (k b t : Bytes)
    → IsText k
    → IsJson b
    → IsTailOfMembers t
    → Members first (comma first ++ (k ++ b':' ∷ (b ++ t)))
Members-next true k b t hk hb ht = members hk hb ht
Members-next false k b t hk hb ht = next_members hk hb ht

key_text-quoted :
    (first : Bool) (n b t : Bytes)
    → comma first ++ (quoted_name n ++ b':' ∷ (b ++ t)) ≡ (comma first ++ key_text n) ++ (b ++ t)
key_text-quoted true n b t =
    ap (λ x. b'"' ∷ x)
      (append_assoc n (b'"' ∷ []) (b':' ∷ (b ++ t)) ∙ sym (append_assoc n (codes "\":") (b ++ t)))
key_text-quoted false n b t =
    ap (λ x. b',' ∷ b'"' ∷ x)
      (append_assoc n (b'"' ∷ []) (b':' ∷ (b ++ t)) ∙ sym (append_assoc n (codes "\":") (b ++ t)))

Members-key :
    (first : Bool) (n b t : Bytes)
    → CleanName n
    → IsJson b
    → IsTailOfMembers t
    → Members first ((comma first ++ key_text n) ++ (b ++ t))
Members-key first n b t hn hb ht =
    subst (Members first) (key_text-quoted first n b t)
      (Members-next first (quoted_name n) b t (quoted_name-IsText n hn) hb ht)

-- The text of a value under a key, in front of the members that are left.
pub member-Yields :
    (first : Bool) (n : Bytes) (e rest : Encoded)
    → CleanName n
    → Yields IsJson e
    → Yields IsTailOfMembers rest
    → Yields (Members first) (then_write (written (comma first ++ key_text n)) (then_write e rest))
member-Yields first n (written b) (written t) hn hb ht = Members-key first n b t hn hb ht
member-Yields first n (written b) rejected hn hb ht = tt
member-Yields first n (written b) broke hn hb ht = tt
member-Yields first n rejected rest hn hb ht = tt
member-Yields first n broke rest hn hb ht = tt

pub element-Yields :
    (first : Bool) (e rest : Encoded)
    → Yields IsJson e
    → Yields IsTail rest
    → Yields (Elements first) (then_write (written (comma first)) (then_write e rest))
element-Yields first (written b) (written t) hb ht = Elements-next first b t hb ht
element-Yields first (written b) rejected hb ht = tt
element-Yields first (written b) broke hb ht = tt
element-Yields first rejected rest hb ht = tt
element-Yields first broke rest hb ht = tt

pub entry-Yields :
    (first : Bool) (k e rest : Encoded)
    → Yields IsText k
    → Yields IsJson e
    → Yields IsTailOfMembers rest
    → Yields (Members first) (
        then_write
          (written (comma first))
          (then_write k (then_write (written (b':' ∷ [])) (then_write e rest))))
entry-Yields first (written k) (written b) (written t) hk hb ht = Members-next first k b t hk hb ht
entry-Yields first (written k) (written b) rejected hk hb ht = tt
entry-Yields first (written k) (written b) broke hk hb ht = tt
entry-Yields first (written k) rejected rest hk hb ht = tt
entry-Yields first (written k) broke rest hk hb ht = tt
entry-Yields first rejected e rest hk hb ht = tt
entry-Yields first broke e rest hk hb ht = tt
