-- ===== src/Tests/ChatBot.antt =====
-- A chatbot's URI, and a contact's identities, on concrete input.
use rust_rcs_client.Common.{true, arith, [], ◌∷◌, none, some, ◌≡◌, refl, codes}
use rust_rcs_client.ChatBot.ChatbotSipUri.{
  ChatbotSipUri, as_chatbot_sip_uri, sip_uri, as_chatbot_sip_uri-sip_uri,
}
use rust_rcs_client.ChatBot.Retrieval
use rust_rcs_client.ChatBot.Retrieval.{search_chatbot_directory, search_chatbot_directory-start}
use rust_rcs_client.Http.{World}
use rust_rcs_client.Contact.{ContactKnownIdentities}

abbrev bot : ChatbotSipUri
bot = record {
  bot_identifier = codes "weather";
  bot_publisher_id = codes "acme";
  bot_platform = codes "botplatform";
  bot_platform_domain = codes "rcs.example";
}

as_chatbot_sip_uri-sip_uri_example : as_chatbot_sip_uri (sip_uri bot) ≡ some bot
as_chatbot_sip_uri-sip_uri_example = as_chatbot_sip_uri-sip_uri bot refl refl refl refl

as_chatbot_sip_uri_test :
    as_chatbot_sip_uri (codes "sip:weather.acme@botplatform.rcs.example") ≡ some bot
unfolding as_chatbot_sip_uri
as_chatbot_sip_uri_test = refl

abbrev known : ContactKnownIdentities
known = record { inner = codes "tel:1" ∷ [] }

abbrev directory : Retrieval.Platform
directory = record { is_url = λ s. true; is_utf8 = λ s. true; encode = λ s. s }

abbrev answering : World
answering = record {
  exchanges =
      record {
        connects = true;
        preloaded = none;
        response = some (record {
          status_code = 200;
          reason_phrase = none;
          body = some (record { received = codes "bots"; complete = true; events = [] });
          etag = none;
          max_age = none;
          answer = none;
        });
      }
      ∷ [];
  sent = [];
  recorded_tids = [];
}

search_chatbot_directory-start_example :
    search_chatbot_directory directory
      (codes "https://d")
      (codes "pizza")
      20
      10
      (codes "op")
      none
      none
      answering
    ≡ search_chatbot_directory directory
        (codes "https://d")
        (codes "pizza")
        40
        10
        (codes "op")
        none
        none
        answering
search_chatbot_directory-start_example =
    search_chatbot_directory-start directory (codes "https://d") (codes "pizza") 20 40 10
      (codes "op") none none answering (ground arith) (ground arith)
