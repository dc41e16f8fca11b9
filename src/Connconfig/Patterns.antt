-- ===== src/Connconfig/Patterns.antt =====
-- internal/connconfig/connconfig.go: the patterns, messages and reserved names of a connection's
-- settings.
use lierc_api.Base.{
  ℕ, Bool, false, not, ◌||◌, ◌&&◌, List, [], ◌∷◌, leb, if◌then◌else◌, ◌==◌, nat_eq, list_eq, length,
  txt,
}
use lierc_api.Utf8.{Text}
use lierc_api.Connconfig.Text.{Checked, valid, invalid, ◌>>=◌, is_space}
use lierc_api.Connconfig.Host.{chomp, all_of, is_alnum}

unfoldable pub one_of : List ℕ → ℕ → Bool
one_of [] c = false
one_of (d ∷ ds) c = c == d || one_of ds c

-- `strings.ContainsAny`
unfoldable pub contains_any : Text → List ℕ → Bool
contains_any s cs = not (all_of (λ c. not (one_of cs c)) s)

unfoldable pub nick_forbidden : Text
nick_forbidden = txt " ,*?.!@:<>'\";#/"

pub err_nick : Text
err_nick =
    txt
      "Nick can only use letters, numbers, punctuation and symbols, not spaces or , * ? . ! @ : < > ' \" ; # /, and can't start with ~ & % + - or $"

pub err_nick_long : Text
err_nick_long = txt "Nick must be at most 32 bytes; accented letters and emoji take 2 to 4 each"

pub err_user : Text
err_user = txt "Username must be up to 32 characters, without spaces or @, and can't start with :"

pub err_alias : Text
err_alias =
    txt "Network alias can only use letters, digits, spaces, dots and hyphens, up to 32 characters"

-- The items of a list, checked one by one; `because` makes the message.
unfoldable pub check_each : (Text → Bool) → (Text → Text) → List Text → Checked (List Text)
check_each fits because [] = valid []
check_each fits because (s ∷ ss) =
    let rest = (check_each fits because ss >>= λ ok_ones. valid (s ∷ ok_ones)) in
    if fits s then rest else invalid (because s)

-- `userRe`
unfoldable pub user_re : Text → Bool
user_re [] = false
user_re (c ∷ cs) =
    not (one_of (txt " \0\r\n@:") c)
    && (all_of (λ d. not (one_of (txt " \0\r\n@") d)) cs && leb (length cs) 31)

unfoldable pub is_control : ℕ → Bool
is_control c = leb c 0x1f || c == 0x7f

-- `channelRe`
unfoldable pub channel_body : Text → Bool
channel_body [] = false
channel_body (c ∷ cs) =
    one_of (txt "#&+!") c
    && (all_of (λ d. not (is_space d || (d == b',' || is_control d))) cs
        && (leb 1 (length cs) && leb (length cs) 199))

unfoldable pub channel_re : Text → Bool
channel_re s = channel_body (chomp s)

-- `aliasRe`
unfoldable pub alias_body : Text → Bool
alias_body s =
    all_of (λ c. is_alnum c || one_of (txt " .-") c) s && (leb 1 (length s) && leb (length s) 32)

unfoldable pub alias_re : Text → Bool
alias_re s = alias_body (chomp s)

unfoldable pub not_in : (ℕ → Bool) → Text → Bool
not_in p s = all_of (λ c. not (p c)) s

-- `nickRe`
unfoldable pub nick_re : (ℕ → Bool) → Text → Bool
nick_re is_visible [] = false
nick_re is_visible (c ∷ cs) = not (one_of (txt "#~&@%+-$") c) && all_of is_visible cs

-- `nickReserved`, folded.
unfoldable pub reserved_names : List Text
reserved_names =
    txt "0"
    ∷ txt "NickServ"
    ∷ txt "ChanServ"
    ∷ txt "HostServ"
    ∷ txt "HistServ"
    ∷ txt "MemoServ"
    ∷ txt "BotServ"
    ∷ txt "OperServ"
    ∷ txt "Global"
    ∷ txt "=scene="
    ∷ []

unfoldable pub is_reserved : (Text → Text) → List Text → Text → Bool
is_reserved fold [] folded = false
is_reserved fold (n ∷ ns) folded = fold n == folded || is_reserved fold ns folded
