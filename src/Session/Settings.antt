-- ===== src/Session/Settings.antt =====
-- The settings of AI sessions: AISessionSettings and validateAISessionSettings of ai_session.go. A
-- number is not negative; a negative one is out of each range.
use ssh_gate_oss.Base.{
  ℕ, ◌≤◌, ◌≡◌, ◌⊎◌, refl, sym, ◌∙◌, ap, Bool, false, not, ◌&&◌, ◌||◌, [], ◌∷◌, ◌++◌, map, arith,
  leb, if◌then◌else◌, is_empty,
}
use ssh_gate_oss.Text.{Text, codes, text_eq, contains, trim_space}
use ssh_gate_oss.Text.Laws.{text_eq_iff}
use ssh_gate_oss.Risk.Words.{Words}

-- AISessionSettings.
pub record Settings : Type 0 where
  pub enabled : Bool
  pub idle_minutes : ℕ
  pub max_minutes : ℕ
  pub per_agent : ℕ
  pub total : ℕ
  pub bypass_max_risk : Text
  pub shell_conn_ids : Words
  pub ring_kb : ℕ
  pub audit_kb : ℕ

-- defaultAISessionSettings.
abbrev pub default_settings : Settings
default_settings = record {
  enabled = false;
  idle_minutes = 10;
  max_minutes = 60;
  per_agent = 3;
  total = 16;
  bypass_max_risk = codes "Low";
  shell_conn_ids = [];
  ring_kb = 1024;
  audit_kb = 1024;
}

abbrev pub in_range : ℕ → ℕ → ℕ → Bool
in_range v lo hi = leb lo v && leb v hi

-- The connections, trimmed, from those kept so far.
unfoldable pub clean_ids : Words → Words → Words
clean_ids kept [] = kept
clean_ids kept (id ∷ ids) =
    let t = trim_space id in
    let more = clean_ids (kept ++ t ∷ []) ids in
    let same = clean_ids kept ids in
    if not (is_empty t) && not (contains kept t) then more else same

-- validateAISessionSettings: the cleaned settings, and the field that is wrong.
unfoldable pub validate_settings : Settings → Settings × Text
validate_settings s =
    if not (in_range s.idle_minutes 1 120)
    then (s, codes "idleMinutes")
    else if not (in_range s.max_minutes 5 480)
    then (s, codes "maxMinutes")
    else if not (in_range s.per_agent 1 8)
    then (s, codes "perAgent")
    else if not (in_range s.total 1 64)
    then (s, codes "total")
    else if not (text_eq s.bypass_max_risk (codes "Low"))
        && not (text_eq s.bypass_max_risk (codes "Medium"))
    then (s, codes "bypassMaxRisk")
    else if not (in_range s.ring_kb 64 8192)
    then (s, codes "ringKb")
    else if not (in_range s.audit_kb 0 16384)
    then (s, codes "auditKb")
    else (record s { shell_conn_ids = clean_ids [] s.shell_conn_ids }, [])

-- No connection is listed twice.
abbrev pub Unrepeated : Words → Type 0
Unrepeated [] = Unit
Unrepeated (x ∷ xs) = (contains xs x ≡ false) × Unrepeated xs

pub record IsInRange (s : Settings) : Type 0 where
  pub idle : (1 ≤ s.idle_minutes) × (s.idle_minutes ≤ 120)
  pub longest : (5 ≤ s.max_minutes) × (s.max_minutes ≤ 480)
  pub agent : (1 ≤ s.per_agent) × (s.per_agent ≤ 8)
  pub all : (1 ≤ s.total) × (s.total ≤ 64)
  pub limit : (s.bypass_max_risk ≡ codes "Low") ⊎ (s.bypass_max_risk ≡ codes "Medium")
  pub ring : (64 ≤ s.ring_kb) × (s.ring_kb ≤ 8192)
  pub audit : s.audit_kb ≤ 16384

contains-append :
    (xs ys : Words) (x : Text) → contains (xs ++ ys) x ≡ (contains xs x || contains ys x)
unfolding contains
contains-append [] ys x = refl
contains-append (y ∷ xs) ys x = ground (arith, contains-append xs ys x)

snoc-Unrepeated :
    (xs : Words) (x : Text) → contains xs x ≡ false → Unrepeated xs → Unrepeated (xs ++ x ∷ [])
unfolding contains
snoc-Unrepeated [] x h u = (refl, tt)
snoc-Unrepeated (y ∷ xs) x h u =
    ground
      (arith, contains-append xs (x ∷ []) y, snoc-Unrepeated xs x, text_eq_iff x y, text_eq_iff y x)

clean_ids-Unrepeated : (kept ids : Words) → Unrepeated kept → Unrepeated (clean_ids kept ids)
unfolding clean_ids
clean_ids-Unrepeated kept [] u = u
clean_ids-Unrepeated kept (id ∷ ids) u = ground (
  arith,
  snoc-Unrepeated kept (trim_space id),
  clean_ids-Unrepeated (kept ++ trim_space id ∷ []) ids,
  clean_ids-Unrepeated kept ids,
)

-- The connections that are kept are the trimmed ones that are not blank.
contains-clean_ids :
    (kept ids : Words) (x : Text)
    → contains (clean_ids kept ids) x
      ≡ (contains kept x || (not (is_empty x) && contains (map trim_space ids) x))
unfolding clean_ids contains
contains-clean_ids kept [] x = ground arith
contains-clean_ids kept (id ∷ ids) x = ground (
  arith,
  contains-clean_ids (kept ++ trim_space id ∷ []) ids x,
  contains-clean_ids kept ids x,
  contains-append kept (trim_space id ∷ []) x,
  text_eq_iff (trim_space id) x,
)

-- Settings that are accepted have each number in its range and a risk limit of Low or Medium, and
-- differ from the given ones in the connections only; of these each is listed once, and listed are exactly the trimmed given ones that are not blank.
pub validate_settings-IsInRange :
    (s s' : Settings)
    → validate_settings s ≡ (s', [])
    → IsInRange s'
      × (s' ≡ record s { shell_conn_ids = s'.shell_conn_ids })
      × Unrepeated s'.shell_conn_ids
      × ((x : Text)
          → contains s'.shell_conn_ids x
            ≡ (not (is_empty x) && contains (map trim_space s.shell_conn_ids) x))
unfolding validate_settings contains
validate_settings-IsInRange s s' h =
    let same : s' ≡ record s { shell_conn_ids = clean_ids [] s.shell_conn_ids } = ground arith in
    let ids : s'.shell_conn_ids ≡ clean_ids [] s.shell_conn_ids =
      ap (λ (t : Settings). t.shell_conn_ids) same in
    let low_or_medium = text_eq_iff s.bypass_max_risk (codes "Low") in
    let medium_too = text_eq_iff s.bypass_max_risk (codes "Medium") in
    (
      ground arith,
      same ∙ ap (λ (i : Words). record s { shell_conn_ids = i }) (sym ids),
      rw ids (clean_ids-Unrepeated [] s.shell_conn_ids tt),
      λ x. rw ids (contains-clean_ids [] s.shell_conn_ids x),
    )
