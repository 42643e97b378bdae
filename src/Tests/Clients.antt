-- ===== src/Tests/Clients.antt =====
-- Two fetches side by side: the second begins before the first has its connection.
use mantalon.Base.{List, [], ◌∷◌, none, some, true, false, Text, ok, codes, ◌≡◌, refl, inl}
use mantalon.Base.Assoc.{lookup}
use mantalon.Pool.{
  dns_name, dial, ws_url, start_plain, is_https, get_server, get_port, get_address, multiaddr_of,
}
use mantalon.Cookies.{add_cookies, cookie_list}
use mantalon.Cookies.Toy.{toy_crate}
use mantalon.Fetch.{with_cookies}
use mantalon.Client.{
  Client, Dialling, Sending, sent_by, start_dialling, start_sending, finish_dialling,
  finish_sending, finish_override, fetched, overridden, dials, dialled, responded, initial, Steps,
  here, next,
}
use mantalon.Client.Safety.{IsSafe, Steps-IsSafe}
use mantalon.Client.Origins.{AreExplained, Steps-AreExplained}
use mantalon.Tests.Fetches.{no_cookies}
use mantalon.Tests.Sessions.{request, welcome, welcoming}

abbrev origin : Text
origin = codes "http://m.org"

abbrev Page : Type 0
Page = Client toy_crate welcoming origin

abbrev address : Text
address = codes "dnsaddr/a.org/tcp/8080"

abbrev start : Page
start = initial toy_crate welcoming origin no_cookies

abbrev dialling_of : Text → Dialling toy_crate welcoming origin
dialling_of url = record {
  uri = (request url).uri;
  sent = sent_by toy_crate welcoming origin start (request url);
  multiaddr = address;
  name = dns_name (codes "a.org");
  reading = false;
}

abbrev sender : Text
sender = ws_url origin address

abbrev sending_of : Text → Sending toy_crate welcoming origin
sending_of url = record {
  uri = (request url).uri;
  sent = sent_by toy_crate welcoming origin start (request url);
  sender = sender;
}

abbrev one : Page
one =
    start_dialling toy_crate welcoming origin (request (codes "a.org/login")) address
      (dns_name (codes "a.org")) false start

abbrev two : Page
two =
    start_dialling toy_crate welcoming origin (request (codes "a.org/news")) address
      (dns_name (codes "a.org")) false one

abbrev first : Page
first =
    finish_dialling toy_crate welcoming origin false (dialling_of (codes "a.org/news") ∷ [])
      (dialling_of (codes "a.org/login")) sender two

abbrev answered : Page
answered =
    finish_sending toy_crate welcoming origin [] (sending_of (codes "a.org/login")) welcome first

run : Steps toy_crate welcoming origin start answered
unfolding initial start_dialling start_sending finish_dialling finish_sending with_cookies
    add_cookies cookie_list dial ws_url start_plain is_https lookup mathlib.Core.Option.bind
    get_server get_port get_address multiaddr_of mantalon.Base.trim_start_matches
    mantalon.Base.digits
run =
    next
      (next
        (next
          (next here (
            fetched (
              dials (request (codes "a.org/login")) address (dns_name (codes "a.org")) false refl
                (inl (refl, refl)))))
          (fetched (
            dials (request (codes "a.org/news")) address (dns_name (codes "a.org")) false refl
              (inl (refl, refl)))))
        (fetched (
          dialled [] (dialling_of (codes "a.org/news") ∷ []) (dialling_of (codes "a.org/login"))
            sender false refl refl)))
      (fetched (responded [] [] (sending_of (codes "a.org/login")) welcome refl refl refl))

-- The page then overrides the cookie that it was sent.
abbrev renewed : Page
renewed = finish_override toy_crate welcoming origin (codes "id") (codes "9") answered

Steps-IsSafe_example : IsSafe toy_crate welcoming origin answered
Steps-IsSafe_example = Steps-IsSafe toy_crate welcoming origin no_cookies run

Steps-AreExplained_example : AreExplained toy_crate welcoming origin no_cookies renewed
Steps-AreExplained_example =
    Steps-AreExplained toy_crate welcoming origin no_cookies
      (next run (overridden (codes "id") (codes "9")))
