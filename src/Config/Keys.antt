-- ===== src/Config/Keys.antt =====
-- The options of the file of the machine that are texts: their names and their members.
use distadm.Prelude.{
  zero, suc, ◌≢◌, ℕ, ◌≡◌, ◌<◌, refl, sym, ap, ◌∙◌, Option-cases, inl, inr, List, [], ◌∷◌, bytes,
  get_or, set, length, arith,
}
use distadm.Config.{
  Config, TextKey, Key, put_text, put_names, process_key, put_port, put_granularity, factor,
}
use distadm.Config.Names.{views}
use distadm.Config.Numbers.{extract_int, extract_size, next_char}

-- The name of an option in the file
abbrev pub name_of : TextKey → List ℕ
name_of TextKey.scan_date_file = bytes "antivirus-scan-date-file"
name_of TextKey.scan_date_file_date = bytes "antivirus-scan-date-file-date"
name_of TextKey.scan_date_exec = bytes "antivirus-scan-date-exec"
name_of TextKey.update_date_file = bytes "antivirus-update-date-file"
name_of TextKey.update_date_file_date = bytes "antivirus-update-date-file-date"
name_of TextKey.update_date_exec = bytes "antivirus-update-date-exec"
name_of TextKey.results_file = bytes "antivirus-results-file"

-- The member that keeps its value
abbrev pub text_of : TextKey → Config → List ℕ
text_of TextKey.scan_date_file c = c.av_scan_date_file
text_of TextKey.scan_date_file_date c = c.av_scan_date_file_date
text_of TextKey.scan_date_exec c = c.av_scan_date_exec
text_of TextKey.update_date_file c = c.av_update_date_file
text_of TextKey.update_date_file_date c = c.av_update_date_file_date
text_of TextKey.update_date_exec c = c.av_update_date_exec
text_of TextKey.results_file c = c.av_results_file

abbrev index : TextKey → ℕ
index TextKey.scan_date_file = 0
index TextKey.scan_date_file_date = 1
index TextKey.scan_date_exec = 2
index TextKey.update_date_file = 3
index TextKey.update_date_file_date = 4
index TextKey.update_date_exec = 5
index TextKey.results_file = 6

abbrev texts : Config → List (List ℕ)
texts c =
    c.av_scan_date_file ∷ c.av_scan_date_file_date ∷ c.av_scan_date_exec ∷ c.av_update_date_file
    ∷ c.av_update_date_file_date ∷ c.av_update_date_exec ∷ c.av_results_file ∷ []

text_of_lem : (key : TextKey) (c : Config) → text_of key c ≡ get_or (texts c) (index key) []
text_of_lem TextKey.scan_date_file c = refl
text_of_lem TextKey.scan_date_file_date c = refl
text_of_lem TextKey.scan_date_exec c = refl
text_of_lem TextKey.update_date_file c = refl
text_of_lem TextKey.update_date_file_date c = refl
text_of_lem TextKey.update_date_exec c = refl
text_of_lem TextKey.results_file c = refl

texts-put_text :
    (key : TextKey) (s2 : List ℕ) (c : Config)
    → texts (put_text key s2 c) ≡ set (texts c) (index key) s2
texts-put_text TextKey.scan_date_file s2 c = refl
texts-put_text TextKey.scan_date_file_date s2 c = refl
texts-put_text TextKey.scan_date_exec s2 c = refl
texts-put_text TextKey.update_date_file s2 c = refl
texts-put_text TextKey.update_date_file_date s2 c = refl
texts-put_text TextKey.update_date_exec s2 c = refl
texts-put_text TextKey.results_file s2 c = refl

get_or-set_here :
    (xs : List (List ℕ)) (i : ℕ) (x : List ℕ) → i < length xs → get_or (set xs i x) i [] ≡ x
get_or-set_here [] i x h = absurd (omega (arith, h))
get_or-set_here (y ∷ xs) zero x h = refl
get_or-set_here (y ∷ xs) (suc i) x h = get_or-set_here xs i x (omega (arith, h))

get_or-set_apart :
    (xs : List (List ℕ)) (i j : ℕ) (x : List ℕ) → i ≢ j → get_or (set xs i x) j [] ≡ get_or xs j []
get_or-set_apart [] i j x h = refl
get_or-set_apart (y ∷ xs) zero zero x h = absurd (h refl)
get_or-set_apart (y ∷ xs) zero (suc j) x h = refl
get_or-set_apart (y ∷ xs) (suc i) zero x h = refl
get_or-set_apart (y ∷ xs) (suc i) (suc j) x h = get_or-set_apart xs i j x (λ e. h (ap suc e))

index-bound : (key : TextKey) → index key < 7
index-bound TextKey.scan_date_file = omega arith
index-bound TextKey.scan_date_file_date = omega arith
index-bound TextKey.scan_date_exec = omega arith
index-bound TextKey.update_date_file = omega arith
index-bound TextKey.update_date_file_date = omega arith
index-bound TextKey.update_date_exec = omega arith
index-bound TextKey.results_file = omega arith

key_at : ℕ → TextKey
key_at zero = TextKey.scan_date_file
key_at (suc zero) = TextKey.scan_date_file_date
key_at (suc (suc zero)) = TextKey.scan_date_exec
key_at (suc (suc (suc zero))) = TextKey.update_date_file
key_at (suc (suc (suc (suc zero)))) = TextKey.update_date_file_date
key_at (suc (suc (suc (suc (suc zero))))) = TextKey.update_date_exec
key_at (suc (suc (suc (suc (suc (suc n)))))) = TextKey.results_file

key_at-index : (key : TextKey) → key_at (index key) ≡ key
unfolding key_at
key_at-index TextKey.scan_date_file = refl
key_at-index TextKey.scan_date_file_date = refl
key_at-index TextKey.scan_date_exec = refl
key_at-index TextKey.update_date_file = refl
key_at-index TextKey.update_date_file_date = refl
key_at-index TextKey.update_date_exec = refl
key_at-index TextKey.results_file = refl

texts-put_names :
    (names : List (List ℕ × List ℕ)) (c : Config) → texts (put_names names c) ≡ texts c
texts-put_names [] c = refl
texts-put_names ((field, behind) ∷ more) c = texts-put_names more _

texts-put_port : (x : ℕ) (c : Config) → texts (put_port x c) ≡ texts c
texts-put_port zero c = refl
texts-put_port (suc x) c = refl

texts-put_granularity : (x : ℕ) (c : Config) → texts (put_granularity x c) ≡ texts c
texts-put_granularity zero c = refl
texts-put_granularity (suc x) c = refl

same_text : (key : TextKey) (c d : Config) → texts c ≡ texts d → text_of key c ≡ text_of key d
same_text key c d e =
    text_of_lem key c ∙ ap (λ xs. get_or xs (index key) []) e ∙ sym (text_of_lem key d)

pub text_of-process_key :
    (key : TextKey) (k : Key) (s2 : List ℕ) (c : Config)
    → k ≢ Key.text key
    → text_of key (process_key k s2 c).1 ≡ text_of key c
unfolding process_key
text_of-process_key key Key.workdir s2 c apart = same_text key _ c refl
text_of-process_key key Key.check_free_space s2 c apart = same_text key _ c refl
text_of-process_key key Key.port_number s2 c apart =
    same_text key (put_port (extract_int s2) c) c (texts-put_port (extract_int s2) c)
text_of-process_key key Key.granularity s2 c apart =
    elim (Option-cases (factor (next_char (extract_size s2).1))) [
      | inl other ↦ rw (other, process_key) refl
      | inr (f, found) ↦ rw (found, process_key) (same_text key _ c (texts-put_granularity _ c))
    ]
text_of-process_key key Key.interfaces s2 c apart =
    same_text key (put_names (views (length s2) s2) c) c (texts-put_names (views (length s2) s2) c)
text_of-process_key key (Key.text k) s2 c apart =
    let i_apart : index k ≢ index key =
      λ e. apart (ap Key.text (sym (key_at-index k) ∙ ap key_at e ∙ key_at-index key)) in
    text_of_lem key (put_text k s2 c)
    ∙ ap (λ xs. get_or xs (index key) []) (texts-put_text k s2 c)
    ∙ get_or-set_apart (texts c) (index k) (index key) s2 i_apart
    ∙ sym (text_of_lem key c)

pub text_of-put_text :
    (key : TextKey) (s2 : List ℕ) (c : Config) → text_of key (put_text key s2 c) ≡ s2
text_of-put_text key s2 c =
    text_of_lem key (put_text key s2 c)
    ∙ ap (λ xs. get_or xs (index key) []) (texts-put_text key s2 c)
    ∙ get_or-set_here (texts c) (index key) s2 (index-bound key)
