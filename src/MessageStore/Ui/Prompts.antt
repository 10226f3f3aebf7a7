-- ===== src/MessageStore/Ui/Prompts.antt =====
-- The texts of MessageStore/client/src/ClientUiTask.cpp.
use lab.Prelude.{Bytes, codes}

pub data Prompt : Type 0 where
  welcome option_add option_send option_recv option_exit good_bye bad_option usr_add : Prompt
  send_usr_from send_usr_to no_such_user user_msg rcv_usr usr_exist msg_header no_msg : Prompt

unfoldable pub text : Prompt → Bytes
text welcome = codes "\nWelcome to the Message Store. Your options are: \n"
text option_add = codes "1. Add a new user to Message Store"
text option_send = codes "2. Send a message to a user"
text option_recv = codes "3. Receive all messages bound to a user"
text option_exit = codes "4. Exit Message Store"
text good_bye = codes "Thank you for using Message Store. Drop by any time!"
text bad_option = codes "Bad option selected. Please try again"
text usr_add = codes "Please enter your first and last name, separated by a space "
text send_usr_from =
    codes
      "Please enter the first and last name of the user __FROM__ which the message is sent, separated by space."
text send_usr_to =
    codes
      "Please enter the first and last name of the user __TO__ which the message is sent, separated by space."
text no_such_user =
    codes "The user you have requested does not exist in the system. Please try again."
text user_msg = codes "Please enter the message you wish to send [128 chars max]."
text rcv_usr =
    codes
      "Please enter the first and last name of the user for which you would like to receive messages, separated by space"
text usr_exist = codes "The user you chose to add exists in the system."
text msg_header = codes "\nUser Messages:"
text no_msg = codes "\nNo messages for this user"
