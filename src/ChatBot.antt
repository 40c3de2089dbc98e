-- ===== src/ChatBot.antt =====
-- chat_bot/: the addresses of chatbots, and what is retrieved of them.
pub mod ChatbotSipUri
pub mod Retrieval
