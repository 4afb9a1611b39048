-- ===== src/Schedule.antt =====
-- anchor_schedule.py: when to anchor.
pub mod Rule
use nexuscone.Prelude.{
  ◌+◌, ◌*◌, Bool, true, false, Option, none, some, List, [], ◌∷◌, leb, if◌then◌else◌,
}
use nexuscone.Prelude.Int.{ℤ, pos, negsuc, leb_ℤ}
use nexuscone.Text.{Text, codes}
use nexuscone.Time.{DateTime, micros}

pub record AnchorSchedule : Type 0 where
  pub every_n_entries : ℤ
  pub every_m_minutes : ℤ
  pub calendar_servers : List Text
  pub tsa_urls : List Text
  pub enabled : Bool

abbrev pub default_calendar_servers : List Text
default_calendar_servers =
    codes "https://alice.btc.calendar.opentimestamps.org"
    ∷ codes "https://bob.btc.calendar.opentimestamps.org"
    ∷ codes "https://finney.calendar.eternitywall.com"
    ∷ []

abbrev pub default_tsa_urls : List Text
default_tsa_urls =
    codes "https://freetsa.org/tsr"
    ∷ codes "http://timestamp.digicert.com"
    ∷ codes "http://timestamp.sectigo.com"
    ∷ []

-- `AnchorSchedule()`
abbrev pub default_schedule : AnchorSchedule
default_schedule = record {
  every_n_entries = pos 1000;
  every_m_minutes = pos 60;
  calendar_servers = default_calendar_servers;
  tsa_urls = default_tsa_urls;
  enabled = false;
}

-- `(now - last).total_seconds() / 60.0 >= m`, over the exact quotient, with which Python's two
-- roundings agree for spans of less than 70 years.
unfoldable pub elapsed_at_least : DateTime → DateTime → ℤ → Bool
elapsed_at_least now last (pos m) = leb (micros last + m * 60000000) (micros now)
elapsed_at_least now last (negsuc m) = leb (micros last) (micros now + (m + 1) * 60000000)

abbrev pub since_last : ℤ → Option DateTime → DateTime → Bool
since_last minutes none now = true
since_last minutes (some last) now = elapsed_at_least now last minutes

-- `now` is the argument, or the clock's time where it is left out.
unfoldable pub should_anchor : AnchorSchedule → ℤ → Option DateTime → DateTime → Bool
unfolding elapsed_at_least
should_anchor schedule entries_since_last last_anchor_at now =
    if schedule.enabled
    then (if leb_ℤ schedule.every_n_entries entries_since_last
        then true
        else if leb_ℤ entries_since_last (pos 0)
        then false
        else since_last schedule.every_m_minutes last_anchor_at now)
    else false
