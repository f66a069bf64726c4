-- ===== src/Dns/Ips/Order.antt =====
-- The byte order of texts is a total order, and so sorting does not depend on the order given.
use Prim.Native.Nat.{Ordering}
use Prim.Native.String.compare
use Prim.Native.String.{compare}
use text.Mathlib.TextEquality.{path_by_compare, IsScalar-prop}
use mathlib.Core.List.{Perm, Permᴰ}
use mathlib.Core.Logic.{∥∥₁_elim}
use gslb.Prelude.{String, ◌≡◌, refl, ◌∙◌, List, [], ◌∷◌, true, false, str_eq, if◌then◌else◌, arith}
use gslb.Types.{Backend}
use gslb.Dns.Ips.{text_le, insert_sorted, sort_strings, extract_ips}

pub text_le_total : (a b : String) → text_le a b ≡ false → text_le b a ≡ true
text_le_total String.[] String.[] h = ground (arith, compare.nil-nil)
text_le_total String.[] (String.◌∷◌ d t) h = ground (arith, compare.nil-cons d t)
text_le_total (String.◌∷◌ c s) String.[] h = ground (arith, compare.nil-cons c s)
text_le_total (String.◌∷◌ c s) (String.◌∷◌ d t) h =
    ground (arith, compare.cons-cons c d s t, compare.cons-cons d c t s, text_le_total s t)

pub text_le_trans : (a b c : String) → text_le a b ≡ true → text_le b c ≡ true → text_le a c ≡ true
text_le_trans String.[] b String.[] h k = ground (arith, compare.nil-nil)
text_le_trans String.[] b (String.◌∷◌ e u) h k = ground (arith, compare.nil-cons e u)
text_le_trans (String.◌∷◌ c s) String.[] u h k = ground (arith, compare.cons-nil c s)
text_le_trans (String.◌∷◌ c s) (String.◌∷◌ d t) String.[] h k = ground (arith, compare.cons-nil d t)
text_le_trans (String.◌∷◌ c s) (String.◌∷◌ d t) (String.◌∷◌ e u) h k = ground (
  arith,
  compare.cons-cons c d s t,
  compare.cons-cons d e t u,
  compare.cons-cons c e s u,
  text_le_trans s t u,
)

compare_both : (a b : String) → text_le a b ≡ true → text_le b a ≡ true → compare a b ≡ Ordering.eq
compare_both String.[] String.[] h k = ground (arith, compare.nil-nil)
compare_both String.[] (String.◌∷◌ d t) h k = ground (arith, compare.cons-nil d t)
compare_both (String.◌∷◌ c s) String.[] h k = ground (arith, compare.cons-nil c s)
compare_both (String.◌∷◌ c s) (String.◌∷◌ d t) h k =
    ground (arith, compare.cons-cons c d s t, compare.cons-cons d c t s, compare_both s t)

pub text_le_antisym : (a b : String) → text_le a b ≡ true → text_le b a ≡ true → a ≡ b
text_le_antisym a b h k = path_by_compare a b (compare_both a b h k)

insert_sorted_comm :
    (a b : String) (l : List String)
    → insert_sorted a (insert_sorted b l) ≡ insert_sorted b (insert_sorted a l)
unfolding insert_sorted
insert_sorted_comm a b [] =
    ground (arith, text_le_total a b, text_le_total b a, text_le_antisym a b)
insert_sorted_comm a b (c ∷ l) = ground (
  arith,
  text_le_total a b,
  text_le_total b a,
  text_le_antisym a b,
  text_le_total a c,
  text_le_total b c,
  text_le_trans a b c,
  text_le_trans b a c,
  insert_sorted_comm a b l,
)

-- Sorting gives one list for all orders of the same texts.
sort_strings-Permᴰ : {xs ys : List String} → Permᴰ xs ys → sort_strings xs ≡ sort_strings ys
unfolding sort_strings
sort_strings-Permᴰ Permᴰ.nil = refl
sort_strings-Permᴰ (Permᴰ.cons e p) = cc (e, sort_strings-Permᴰ p)
sort_strings-Permᴰ (Permᴰ.swap {a = a} {b = b} {l = l} e f) =
    cc (e, f, insert_sorted_comm a b (sort_strings l))
sort_strings-Permᴰ (Permᴰ.trans p q) = sort_strings-Permᴰ p ∙ sort_strings-Permᴰ q

pub extract_ips-cons :
    (b : Backend) (l : List Backend)
    → extract_ips (b ∷ l)
      ≡ (if str_eq b.ip "" then extract_ips l else insert_sorted b.ip (extract_ips l))
unfolding extract_ips
extract_ips-cons b l = ground arith

extract_ips-swap :
    (a b : Backend) (l : List Backend) → extract_ips (a ∷ b ∷ l) ≡ extract_ips (b ∷ a ∷ l)
extract_ips-swap a b l = ground (
  arith,
  extract_ips-cons a (b ∷ l),
  extract_ips-cons b l,
  extract_ips-cons b (a ∷ l),
  extract_ips-cons a l,
  insert_sorted_comm a.ip b.ip (extract_ips l),
)

extract_ips-Permᴰ : {bs cs : List Backend} → Permᴰ bs cs → extract_ips bs ≡ extract_ips cs
extract_ips-Permᴰ Permᴰ.nil = refl
extract_ips-Permᴰ (Permᴰ.cons {a = a} {b = b} {l₁ = l} {l₂ = m} e p) =
    ground (arith, e, extract_ips-cons a l, extract_ips-cons b m, extract_ips-Permᴰ p)
extract_ips-Permᴰ (Permᴰ.swap {a = a} {b = b} {l = l} e f) = cc (e, f, extract_ips-swap a b l)
extract_ips-Permᴰ (Permᴰ.trans p q) = extract_ips-Permᴰ p ∙ extract_ips-Permᴰ q

texts_set : IsSet (List String)
texts_set = hlevel IsScalar-prop

-- The addresses of a list of backends do not depend on the order in which the backends come.
pub extract_ips-perm : (bs cs : List Backend) → Perm bs cs → extract_ips bs ≡ extract_ips cs
extract_ips-perm bs cs p =
    ∥∥₁_elim p (texts_set (extract_ips bs) (extract_ips cs)) (λ q. extract_ips-Permᴰ q)
