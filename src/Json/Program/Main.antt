-- ===== src/Json/Program/Main.antt =====
-- `main` of src/json-example.cpp, and the text that it prints.
use noam.Base.{ℕ, List, ◌++◌, codes, length, Option}
use noam.Intrinsics.Words.{FromChars}
use noam.Json.Program.{parse_n_print}
use noam.Result.{DefaultConstructible}
use noam.State
use noam.State.{Memory}

abbrev pub input : List ℕ
input =
    codes "{\n"
    ++ codes "    \"glossary\": {\n"
    ++ codes "        \"foo\": null,\n"
    ++ codes "        \"title\": \"example glossary\",\n"
    ++ codes "\t\t\"GlossDiv\": {\n"
    ++ codes "            \"title\": \"S\",\n"
    ++ codes "\t\t\t\"GlossList\": {\n"
    ++ codes "                \"GlossEntry\": {\n"
    ++ codes "                    \"ID\": \"SGML\",\n"
    ++ codes "\t\t\t\t\t\"SortAs\": \"SGML\",\n"
    ++ codes "\t\t\t\t\t\"GlossTerm\": \"Standard Generalized Markup Language\",\n"
    ++ codes "\t\t\t\t\t\"Acronym\": \"SGML\",\n"
    ++ codes "\t\t\t\t\t\"Abbrev\": \"ISO 8879:1986\",\n"
    ++ codes "\t\t\t\t\t\"GlossDef\": {\n"
    ++ codes "                        \"para\": \"A meta-markup language, used to create "
    ++ codes "markup languages such as DocBook.\",\n"
    ++ codes "\t\t\t\t\t\t\"GlossSeeAlso\": [\"GML\", \"XML\", 10, 20, 30, 40, null, [1, 2, "
    ++ codes "3, 4, \"hello\", {\"blarg\": [[], [], [[], [[[], [\"blarg\", {\"foo\": [10, 20, "
    ++ codes "10, 1]}]], 20]]]}]]\n"
    ++ codes "                    },\n"
    ++ codes "\t\t\t\t\t\"GlossSee\": \"markup\"\n"
    ++ codes "                }\n"
    ++ codes "            }\n"
    ++ codes "        }\n"
    ++ codes "    }\n"
    ++ codes "}"

-- The program, with the address at which the memory has the input.
module _ {N : Type 0} ⦃d : DefaultConstructible N⦄ where
  abbrev pub main : FromChars N → (N → List ℕ) → ℕ → Memory → ℕ → Option (List ℕ)
  main from_chars print fuel m ptr =
      parse_n_print from_chars print fuel m (State.of_size ptr (length input))
